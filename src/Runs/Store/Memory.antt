-- ===== src/Runs/Store/Memory.antt =====
-- packages/harness/deerflow/runtime/runs/store/memory.py: the store as a dict of rows. Its calls never
-- raise; `now` is the clock at the call.
use deer_seek_backend.Prelude.{
  ℕ, String, Bool, true, ◌&&◌, Option, none, some, List, ◌==◌, string_eq, option_eq, leb,
  if◌then◌else◌, keep, take, sorted, sorted_reverse,
}
use deer_seek_backend.Dict.{Dict, get, has, put, pop, values}
use deer_seek_backend.Runs.Status.{RunStatus, is_inflight, is_pending, is_running}
use deer_seek_backend.Runs.Registry.{no_usage}
use deer_seek_backend.Runs.Store.{
  Row, Payload, UsageUpdate, given, given_some, apply_usage, done, Call, RunStore,
}

abbrev pub Rows : Type 0 → Type 0
Rows J = Dict String (Row J)

module _ {J : Type 0} (now : ℕ) where
  unfoldable pub put_row : String → Payload J → Rows J → Rows J
  put_row run_id p rows = put rows run_id (record {
    run_id = run_id;
    thread_id = p.thread_id;
    assistant_id = p.assistant_id;
    user_id = p.user_id;
    model_name = p.model_name;
    status = p.status;
    multitask_strategy = p.multitask_strategy;
    metadata = p.metadata;
    kwargs = p.kwargs;
    error = p.error;
    created_at = p.created_at;
    updated_at = now;
    usage = no_usage;
  })

  -- `self._runs[run_id][...] = ...` on a row that is there
  unfoldable pub change_row : (Row J → Row J) → String → Rows J → Rows J
  change_row f run_id rows = elim (get rows run_id) [
    | none ↦ rows
    | some row ↦ put rows run_id (f row)
  ]

  abbrev pub set_row_status : RunStatus → Option String → Row J → Row J
  set_row_status status error row = record row {
    status = status;
    error = given_some error row.error;
    updated_at = now;
  }

  unfoldable pub update_status : String → RunStatus → Option String → Rows J → Bool × Rows J
  unfolding change_row
  update_status run_id status error rows =
      (has rows run_id, change_row (set_row_status status error) run_id rows)

  unfoldable pub update_model_name : String → Option String → Rows J → Rows J
  unfolding change_row
  update_model_name run_id model_name =
      change_row (λ row. record row { model_name = model_name; updated_at = now }) run_id

  abbrev set_row_usage : UsageUpdate → Row J → Row J
  set_row_usage k row = record row {
    error = given_some k.error row.error;
    usage = apply_usage k row.usage;
    updated_at = now;
  }

  unfoldable pub update_run_completion : String → RunStatus → UsageUpdate → Rows J → Bool × Rows J
  unfolding change_row
  update_run_completion run_id status k rows = (
    has rows run_id,
    change_row (λ row. record (set_row_usage k row) { status = status }) run_id rows,
  )

  unfoldable pub update_run_progress : String → UsageUpdate → Rows J → Rows J
  unfolding change_row
  update_run_progress run_id k =
      change_row (λ row. if is_running row.status then set_row_usage k row else row) run_id

module _ {J : Type 0} where
  visible_to : Option String → Option (Row J) → Option (Row J)
  visible_to user none = none
  visible_to none (some row) = some row
  visible_to (some user) (some row) = if row.user_id == some user then some row else none

  unfoldable pub get_row : String → Option String → Rows J → Option (Row J)
  unfolding visible_to
  get_row run_id user rows = visible_to user (get rows run_id)

  owned_by : Option String → Row J → Bool
  owned_by none row = true
  owned_by (some user) row = row.user_id == some user

  unfoldable pub rows_by_thread : String → Option String → ℕ → Rows J → List (Row J)
  unfolding owned_by
  rows_by_thread thread user limit rows = take limit (
      sorted_reverse (λ row. row.created_at)
        (keep (λ row. row.thread_id == thread && owned_by user row) (values rows)))

  unfoldable pub delete : String → Rows J → Rows J
  delete run_id rows = pop rows run_id

  unfoldable pub list_pending : ℕ → Rows J → List (Row J)
  list_pending before rows =
      sorted (λ row. row.created_at)
        (keep (λ row. is_pending row.status && leb row.created_at before) (values rows))

  unfoldable pub list_inflight : ℕ → Rows J → List (Row J)
  list_inflight before rows =
      sorted (λ row. row.created_at)
        (keep (λ row. is_inflight row.status && leb row.created_at before) (values rows))

abbrev pub reads : {A S : Type 0} → (S → A) → Call S A
reads f s = (done (f s), s)

abbrev pub writes : {S : Type 0} → (S → S) → Call S (Unit {0})
writes f s = (done tt, f s)

abbrev pub answers : {A S : Type 0} → (S → A × S) → Call S A
answers f s = let (a, s') = f s in (done a, s')

-- The memory store as the interface that `RunManager` takes.
abbrev pub memory_store : {J : Type 0} → ℕ → RunStore J (Rows J)
memory_store now = record {
  put = λ run_id p. writes (put_row now run_id p);
  get = λ run_id user. reads (get_row run_id user);
  list_by_thread = λ thread user limit. reads (rows_by_thread thread user limit);
  update_status = λ run_id status error. answers (update_status now run_id status error);
  update_model_name = λ run_id name. writes (update_model_name now run_id name);
  update_run_completion = λ run_id status k. answers (update_run_completion now run_id status k);
  update_run_progress = λ run_id k. writes (update_run_progress now run_id k);
  list_inflight = λ before. reads (list_inflight (given before now));
}
