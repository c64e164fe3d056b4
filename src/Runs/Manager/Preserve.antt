-- ===== src/Runs/Manager/Preserve.antt =====
-- Each call of the run manager keeps the index of its runs in step.
use deer_seek_backend.Prelude.{
  ℕ, String, ◌≡◌, refl, false, List, [], ◌∷◌, string_eq, Option-cases, Bool-cases, inl, inr, Option,
}
use deer_seek_backend.Dict.{get, has}
use deer_seek_backend.Runs.Status.{RunStatus, is_inflight, is_running}
use deer_seek_backend.Runs.Registry.{RunRecord, Registry, modify, interrupt, cleanup}
use deer_seek_backend.Runs.Registry.Index.{IsIndexed, insert-IsIndexed, remove-IsIndexed}
use deer_seek_backend.Runs.Registry.Rollback.{
  Keeps, modify-IsIndexed, interrupt-Keeps, remove-insert,
}
use deer_seek_backend.Runs.Store.{RunStore, UsageUpdate}
use deer_seek_backend.Runs.Store.Retry.{RetryPolicy}
use deer_seek_backend.Runs.Manager.{
  Manager, Created, created, conflict, unsupported, not_persisted, create, insert_persisted,
  persist_new_run, undo_unless,
}
use deer_seek_backend.Runs.Manager.Create.{CreateSpec}
use deer_seek_backend.Runs.Manager.Cancel.{cancel_missing, cancel_idle, cancel_busy}
use deer_seek_backend.Runs.Manager.Methods.{
  get_run, get_from_store, list_by_thread, set_status, update_model_name, cancel,
  update_run_progress, set_record_status, set_model, report,
}
use deer_seek_backend.Runs.Manager.Orphans.{reconcile_orphaned_inflight_runs}
use deer_seek_backend.Runs.Manager.Shutdown.{modify_all, ask_to_stop, settled}

module _ {J : Type 0} where
  pub cleanup-IsIndexed : (i : String) (g : Registry J) → IsIndexed g → IsIndexed (cleanup i g)
  unfolding cleanup
  cleanup-IsIndexed i g h = elim (Option-cases (get g.runs i)) [
    | inl missing ↦ rw (missing, cleanup) h
    | inr (r, found) ↦ rw (found, cleanup) (remove-IsIndexed g h i r found)
  ]

  pub modify_all-IsIndexed :
      (f : RunRecord J → RunRecord J)
      → Keeps f
      → (rs : List (RunRecord J)) (g : Registry J) → IsIndexed g
      → IsIndexed (modify_all f rs g)
  unfolding modify_all
  modify_all-IsIndexed f k [] g h = h
  modify_all-IsIndexed f k (r ∷ rs) g h =
      modify_all-IsIndexed f k rs (modify f r.run_id g) (modify-IsIndexed f k r.run_id g h)

  pub settled-Keeps : (now : ℕ) → Keeps {J = J} (settled now)
  unfolding settled
  settled-Keeps now r = elim (Bool-cases (is_inflight r.status)) [
    | inl busy ↦ rw busy (refl, refl)
    | inr idle ↦ rw idle (refl, refl)
  ]

  pub ask_to_stop-Keeps : Keeps {J = J} ask_to_stop
  unfolding ask_to_stop
  ask_to_stop-Keeps r = (refl, refl)

  pub CreateSpec-IsIndexed :
      (now : ℕ) (r : RunRecord J) (g g' : Registry J) (c : Created J)
      → IsIndexed g
      → CreateSpec now r g c g'
      → IsIndexed g'
  unfolding CreateSpec
  CreateSpec-IsIndexed now r g g' (created x) h spec = spec.1
  CreateSpec-IsIndexed now r g g' conflict h spec = rw spec.2 h
  CreateSpec-IsIndexed now r g g' unsupported h spec = rw spec h
  CreateSpec-IsIndexed now r g g' not_persisted h spec = rw spec h

module _ {J S : Type 0} (ops : RunStore J S) (policy : RetryPolicy) (m : Manager J S)
    (h : IsIndexed m.registry) where
  pub create-IsIndexed :
      (r : RunRecord J)
      → has m.registry.runs r.run_id ≡ false
      → IsIndexed (create ops policy r m).1.registry
  unfolding create insert_persisted undo_unless
  create-IsIndexed r fresh = elim (Bool-cases (persist_new_run ops policy r m.store).0) [
    | inl ok ↦ rw (ok) (insert-IsIndexed m.registry h r fresh)
    | inr bad ↦ rw (bad) (rw (remove-insert m.registry h r fresh) h)
  ]

  pub set_status-IsIndexed :
      (now : ℕ) (i : String) (s : RunStatus) (message : Option String)
      → IsIndexed (set_status ops policy now i s message m).registry
  unfolding set_status
  set_status-IsIndexed now i s message = elim (Option-cases (get m.registry.runs i)) [
    | inl missing ↦ rw (missing, set_status) h
    | inr (r, found) ↦
        rw (found, set_status)
          (modify-IsIndexed (set_record_status now s message) (λ r. (refl, refl)) i m.registry h)
  ]

  pub update_model_name-IsIndexed :
      (now : ℕ) (i : String) (model : Option String)
      → IsIndexed (update_model_name ops policy now i model m).registry
  unfolding update_model_name
  update_model_name-IsIndexed now i model = elim (Option-cases (get m.registry.runs i)) [
    | inl missing ↦ rw (missing, update_model_name) h
    | inr (r, found) ↦
        rw (found, update_model_name)
          (modify-IsIndexed (set_model now model) (λ r. (refl, refl)) i m.registry h)
  ]

  pub cancel-IsIndexed :
      (now : ℕ) (action i : String) → IsIndexed (cancel ops policy now action i m).1.registry
  cancel-IsIndexed now action i = elim (Option-cases (get m.registry.runs i)) [
    | inl missing ↦ rw (cancel_missing ops policy now action i m missing) h
    | inr (r, found) ↦ elim (Bool-cases (is_inflight r.status)) [
      | inl busy ↦
          rw (cancel_busy ops policy now action i m r found busy)
            (modify-IsIndexed (interrupt action now) (interrupt-Keeps action now) i m.registry h)
      | inr idle ↦ rw (cancel_idle ops policy now action i m r found idle) h
    ]
  ]

  pub update_run_progress-IsIndexed :
      (now : ℕ) (i : String) (k : UsageUpdate)
      → IsIndexed (update_run_progress ops policy now i k m).registry
  unfolding update_run_progress
  update_run_progress-IsIndexed now i k = elim (Option-cases (get m.registry.runs i)) [
    | inl missing ↦ rw (missing, update_run_progress) h
    | inr (r, found) ↦ elim (Bool-cases (is_running r.status)) [
      | inl runs ↦
          rw (found, update_run_progress, runs)
            (modify-IsIndexed (report now k) (λ r. (refl, refl)) i m.registry h)
      | inr stands ↦ rw (found, update_run_progress, stands) h
    ]
  ]

  pub get_run-registry :
      (i : String) (user : Option String)
      → (get_run ops policy (λ g. g) i user m).1.registry ≡ m.registry
  unfolding get_run
  get_run-registry i user = elim (Option-cases (get m.registry.runs i)) [
    | inr (r, found) ↦ rw (found, get_run) refl
    | inl missing ↦ elim (Option-cases m.store) [
      | inl stored ↦ rw (missing, get_run, stored, get_from_store) refl
      | inr (s, stored) ↦ rw (missing, get_run, stored, get_from_store) refl
    ]
  ]

  pub list_by_thread-registry :
      (thread : String) (user : Option String) (limit : ℕ)
      → (list_by_thread ops policy thread user limit m).1.registry ≡ m.registry
  unfolding list_by_thread
  list_by_thread-registry thread user limit = elim (Option-cases m.store) [
    | inl stored ↦ rw (stored, list_by_thread) refl
    | inr (s, stored) ↦ rw (stored, list_by_thread) refl
  ]

  pub reconcile-registry :
      (now : ℕ) (message : String) (before : Option ℕ)
      → (reconcile_orphaned_inflight_runs ops policy now message before m).1.registry ≡ m.registry
  unfolding reconcile_orphaned_inflight_runs
  reconcile-registry now message before = elim (Option-cases m.store) [
    | inl stored ↦ rw (stored, reconcile_orphaned_inflight_runs) refl
    | inr (s, stored) ↦ rw (stored, reconcile_orphaned_inflight_runs) refl
  ]
