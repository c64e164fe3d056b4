-- ===== src/Runs/Manager/Invariant.antt =====
-- The index of `RunManager` under every sequence of its calls.
use deer_seek_backend.Prelude.{ℕ, String, ◌≡◌, refl, true, false, List, string_eq, Option}
use deer_seek_backend.Dict.{has}
use deer_seek_backend.Runs.Status.{RunStatus, is_inflight}
use deer_seek_backend.Runs.Registry.{RunRecord}
use deer_seek_backend.Runs.Registry.Index.{IsIndexed}
use deer_seek_backend.Runs.Registry.Rollback.{modify-IsIndexed}
use deer_seek_backend.Runs.Store.{RunStore, UsageUpdate}
use deer_seek_backend.Runs.Store.Retry.{RetryPolicy}
use deer_seek_backend.Runs.Manager.{Manager, create, create_or_reject}
use deer_seek_backend.Runs.Manager.Create.{create_or_reject-CreateSpec}
use deer_seek_backend.Runs.Manager.Methods.{
  get_run, list_by_thread, set_status, update_model_name, cancel, update_run_completion,
  update_run_progress, report,
}
use deer_seek_backend.Runs.Manager.Orphans.{reconcile_orphaned_inflight_runs, cleanup_run}
use deer_seek_backend.Runs.Manager.Shutdown.{
  Drained, begin_shutdown, finish_shutdown, ask_to_stop, settled, draining, stopped,
}
use deer_seek_backend.Runs.Manager.Preserve.{
  cleanup-IsIndexed, modify_all-IsIndexed, settled-Keeps, ask_to_stop-Keeps, CreateSpec-IsIndexed,
  create-IsIndexed, set_status-IsIndexed, update_model_name-IsIndexed, cancel-IsIndexed,
  update_run_progress-IsIndexed, get_run-registry, list_by_thread-registry, reconcile-registry,
}

module _ {J S : Type 0} (ops : RunStore J S) (policy : RetryPolicy) where
  -- The calls of the manager, each with its time and with what the caller and the clock give it. A new
  -- run's id, from `uuid4`, is one that no run has.
  pub data Step (m : Manager J S) : Manager J S → Type 0 where
    made :
        (r : RunRecord J) → has m.registry.runs r.run_id ≡ false → Step m (create ops policy r m).1
    made_or_rejected :
        (now : ℕ) (r : RunRecord J)
        → has m.registry.runs r.run_id ≡ false
        → is_inflight r.status ≡ true
        → Step m (create_or_reject ops policy now r m).1
    looked_up :
        (i : String) (user : Option String) → Step m (get_run ops policy (λ g. g) i user m).1
    listed :
        (thread : String) (user : Option String) (limit : ℕ)
        → Step m (list_by_thread ops policy thread user limit m).1
    status_set :
        (now : ℕ) (i : String) (s : RunStatus) (message : Option String)
        → Step m (set_status ops policy now i s message m)
    model_set :
        (now : ℕ) (i : String) (model : Option String)
        → Step m (update_model_name ops policy now i model m)
    cancelled : (now : ℕ) (action i : String) → Step m (cancel ops policy now action i m).1
    reported :
        (now : ℕ) (i : String) (s : RunStatus) (k : UsageUpdate)
        → Step m (update_run_completion ops policy now i s k m)
    progressed :
        (now : ℕ) (i : String) (k : UsageUpdate) → Step m (update_run_progress ops policy now i k m)
    reconciled :
        (now : ℕ) (message : String) (before : Option ℕ)
        → Step m (reconcile_orphaned_inflight_runs ops policy now message before m).1
    cleaned : (i : String) → Step m (cleanup_run ops policy i m)
    stopping : Step m (record m { registry = (begin_shutdown m.registry).1 })
    shut_down :
        (now : ℕ) (outcome : String → Drained) (in_time : ℕ) (drained : List (RunRecord J))
        → Step m (finish_shutdown ops policy now outcome in_time drained m)

  pub data Reachable (m : Manager J S) : Manager J S → Type 0 where
    start : Reachable m m
    step : {a b : Manager J S} → Reachable m a → Step a b → Reachable m b

module _ {J S : Type 0} (ops : RunStore J S) (policy : RetryPolicy) where
  Step-IsIndexed :
      {m n : Manager J S} → Step ops policy m n → IsIndexed m.registry → IsIndexed n.registry
  unfolding update_run_completion begin_shutdown finish_shutdown
  Step-IsIndexed {m} (made r fresh) h = create-IsIndexed ops policy m h r fresh
  Step-IsIndexed {m} (made_or_rejected now r fresh starts) h =
      CreateSpec-IsIndexed now r m.registry _ _ h
        (create_or_reject-CreateSpec ops policy now r m h fresh starts)
  Step-IsIndexed {m} (looked_up i user) h = rw (get_run-registry ops policy m h i user) h
  Step-IsIndexed {m} (listed thread user limit) h =
      rw (list_by_thread-registry ops policy m h thread user limit) h
  Step-IsIndexed {m} (status_set now i s message) h =
      set_status-IsIndexed ops policy m h now i s message
  Step-IsIndexed {m} (model_set now i model) h =
      update_model_name-IsIndexed ops policy m h now i model
  Step-IsIndexed {m} (cancelled now action i) h = cancel-IsIndexed ops policy m h now action i
  Step-IsIndexed {m} (reported now i s k) h =
      modify-IsIndexed (report now k) (λ r. (refl, refl)) i m.registry h
  Step-IsIndexed {m} (progressed now i k) h = update_run_progress-IsIndexed ops policy m h now i k
  Step-IsIndexed {m} (reconciled now message before) h =
      rw (reconcile-registry ops policy m h now message before) h
  Step-IsIndexed {m} (cleaned i) h = cleanup-IsIndexed i m.registry h
  Step-IsIndexed {m} stopping h =
      modify_all-IsIndexed ask_to_stop ask_to_stop-Keeps (draining m.registry) m.registry h
  Step-IsIndexed {m} (shut_down now outcome in_time drained) h =
      modify_all-IsIndexed (settled now) (settled-Keeps now) (stopped outcome drained) m.registry h

  -- In every state that the manager's calls lead to from one whose index is in step with its runs,
  -- whatever the store does, it is in step again.
  pub Reachable-IsIndexed :
      (m n : Manager J S) → IsIndexed m.registry → Reachable ops policy m n → IsIndexed n.registry
  Reachable-IsIndexed m n h start = h
  Reachable-IsIndexed m n h (step {a} r s) = Step-IsIndexed s (Reachable-IsIndexed m a h r)
