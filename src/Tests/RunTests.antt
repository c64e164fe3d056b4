-- ===== src/Tests/RunTests.antt =====
-- Runs of packages/harness/deerflow/runtime/runs: two runs on one thread, in memory and in the store.
use deer_seek_backend.Prelude.{
  ◌≡◌, refl, ℕ, String, Bool, true, false, none, some, [], ◌∷◌, string_eq, arith, if◌then◌else◌,
  zero, suc, take,
}
use deer_seek_backend.Dict.{get, get_or, has, put}
use deer_seek_backend.Runs.Status.{RunStatus, pending, running, success, error, interrupted, cancel}
use deer_seek_backend.Runs.Registry.{RunRecord, Registry, no_usage, empty, insert}
use deer_seek_backend.Runs.Registry.Index.{IsIndexed, insert-IsIndexed}
use deer_seek_backend.Runs.Store.{Row, done, failed, Call, store_put_payload}
use deer_seek_backend.Runs.Store.Retry.{default_policy, retry, retry-IsBounded, IsBounded}
use deer_seek_backend.Runs.Store.Memory.{Rows, memory_store, put_row}
use deer_seek_backend.Runs.Manager.{Manager, create, create_or_reject}
use deer_seek_backend.Runs.Manager.Methods
use deer_seek_backend.Runs.Manager.Methods.{set_status, list_by_thread}
use deer_seek_backend.Runs.Manager.Orphans.{is_live}
use deer_seek_backend.Runs.Manager.Create.{CreateSpec, create_or_reject-CreateSpec}
use deer_seek_backend.Runs.Manager.Cancel.{CancelSpec, cancel_lem}
use deer_seek_backend.Runs.Manager.Recover.{set_status_persists, row_status}
use deer_seek_backend.Runs.Manager.Reconcile.{orphan_fails, reconciled}
use deer_seek_backend.Runs.Manager.Drain.{names_run, finish_shutdown-store}
use deer_seek_backend.Runs.Manager.Shutdown.{cancelled, stopped, finish_shutdown}
use deer_seek_backend.Runs.Manager.Invariant.{Reachable-IsIndexed, made, start, step}

abbrev a_run : String → RunStatus → RunRecord String
a_run i s = record {
  run_id = i;
  thread_id = "t";
  assistant_id = none;
  status = s;
  on_disconnect = cancel;
  multitask_strategy = "interrupt";
  metadata = "";
  kwargs = "";
  user_id = none;
  created_at = 1;
  updated_at = 1;
  task = some (record { done = false; cancel_requested = false });
  abort_event = false;
  abort_action = "interrupt";
  error = none;
  model_name = none;
  store_only = false;
  usage = no_usage;
}

abbrev first : RunRecord String
first = a_run "r1" running

abbrev second : RunRecord String
second = a_run "r2" pending

abbrev one_run : Registry String
one_run = insert first empty

empty-IsIndexed : IsIndexed {J = String} empty
unfolding get get_or
empty-IsIndexed = record { distinct = tt; keyed = tt; indexed = λ t. refl; no_empty = λ t e. cc }

one_run-IsIndexed : IsIndexed one_run
unfolding has
one_run-IsIndexed = insert-IsIndexed empty empty-IsIndexed first refl

abbrev the_rows : Rows String
the_rows = put_row 1 "r1" (store_put_payload first none) []

abbrev manager : Manager String (Rows String)
manager = record { registry = one_run; store = some the_rows }

abbrev the_row : Row String
the_row = record {
  run_id = "r1";
  thread_id = "t";
  assistant_id = none;
  user_id = none;
  model_name = none;
  status = running;
  multitask_strategy = "interrupt";
  metadata = "";
  kwargs = "";
  error = none;
  created_at = 1;
  updated_at = 1;
  usage = no_usage;
}

abbrev cancel_run : ℕ → Bool × Manager String (Rows String)
cancel_run now = Methods.cancel (memory_store 5) default_policy now "rollback" "r1" manager

second_fresh : has one_run.runs "r2" ≡ false
unfolding insert has get put
second_fresh = refl

create_or_reject-CreateSpec_example :
    CreateSpec 5 second one_run
      (create_or_reject (memory_store 5) default_policy 5 second manager).0
      (create_or_reject (memory_store 5) default_policy 5 second manager).1.registry
create_or_reject-CreateSpec_example =
    create_or_reject-CreateSpec (memory_store 5) default_policy 5 second manager one_run-IsIndexed
      second_fresh refl

Reachable-IsIndexed_example :
    IsIndexed (create (memory_store 5) default_policy second manager).1.registry
Reachable-IsIndexed_example =
    Reachable-IsIndexed (memory_store 5) default_policy manager
      (create (memory_store 5) default_policy second manager).1 one_run-IsIndexed
      (step start (made second second_fresh))

cancel_lem_example :
    CancelSpec
      (memory_store 5)
      default_policy
      7
      "rollback"
      "r1"
      manager
      (cancel_run 7).1
      (get one_run.runs "r1")
      (cancel_run 7).0
cancel_lem_example = cancel_lem (memory_store 5) default_policy 7 "rollback" "r1" manager

-- The run "r1" is in memory, and its row was lost.
set_status_persists_example :
    row_status
      (set_status
        (memory_store 5)
        default_policy
        5
        "r1"
        success
        none
        (record { registry = one_run; store = some [] })).store
      "r1"
    ≡ some success
unfolding insert get put
set_status_persists_example =
    set_status_persists default_policy 5 one_run [] "r1" "r1" success none first refl refl

orphan_fails_example :
    row_status (reconciled default_policy 9 "restarted" empty none the_rows).1.store "r1"
    ≡ some error
unfolding get put_row store_put_payload put is_live
orphan_fails_example =
    orphan_fails default_policy 9 "restarted" empty none the_rows "r1" the_row refl refl refl
      (omega arith) refl

-- A run that set "success" before its task was cancelled has "interrupted" in the store.
finish_shutdown-store_example :
    row_status
      (finish_shutdown
        (memory_store 5)
        default_policy
        5
        (λ _. cancelled)
        1
        (a_run "r1" success ∷ [])
        (record { registry = one_run; store = some the_rows })).store
      "r1"
    ≡ (if names_run "r1" (take 1 (stopped (λ _. cancelled) (a_run "r1" success ∷ [])))
        then some interrupted
        else row_status (some the_rows) "r1")
unfolding has get put_row put
finish_shutdown-store_example =
    finish_shutdown-store default_policy 5 (λ _. cancelled) 1 (a_run "r1" success ∷ []) one_run
      the_rows (refl, tt) "r1"

-- A store whose first `n` calls are locked out.
abbrev locked : Call ℕ String
locked zero = (done "row", 0)
locked (suc n) = (failed true, n)

retry-IsBounded_example : IsBounded default_policy locked 5 2 (retry default_policy locked 2)
retry-IsBounded_example = retry-IsBounded default_policy locked 2 (omega arith)
