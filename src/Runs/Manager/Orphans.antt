-- ===== src/Runs/Manager/Orphans.antt =====
-- `reconcile_orphaned_inflight_runs` and `cleanup` of `RunManager`
-- (packages/harness/deerflow/runtime/runs/manager.py): the rows that a restart left in flight, and the
-- records that are no longer needed.
use deer_seek_backend.Prelude.{
  ℕ, String, Bool, false, Option, none, some, List, [], ◌∷◌, string_eq, if◌then◌else◌,
}
use deer_seek_backend.Dict.{get}
use deer_seek_backend.Runs.Status.{error, is_inflight}
use deer_seek_backend.Runs.Registry.{RunRecord, Registry, cleanup}
use deer_seek_backend.Runs.Store.{Row, Attempt, done, failed, RunStore, record_from_store}
use deer_seek_backend.Runs.Store.Retry.{RetryPolicy}
use deer_seek_backend.Runs.Manager.{Manager, with_retry, persist_status}

module _ {J : Type 0} where
  abbrev pub orphaned : ℕ → String → Row J → RunRecord J
  orphaned now message row = record (record_from_store row) {
    status = error;
    error = some message;
    updated_at = now;
  }

  -- Whether a task of this process runs the row's run.
  unfoldable pub is_live : Registry J → String → Bool
  is_live g run_id = elim (get g.runs run_id) [ none ↦ false | some r ↦ is_inflight r.status ]

module _ {J S : Type 0} (ops : RunStore J S) (policy : RetryPolicy) where
  -- The loop of `reconcile_orphaned_inflight_runs`
  unfoldable pub recover_rows :
      ℕ → String → Registry J → List (Row J) → Option S → List (RunRecord J) × Option S
  unfolding persist_status is_live
  recover_rows now message g [] s = ([], s)
  recover_rows now message g (row ∷ rows) s =
      if is_live g row.run_id
      then recover_rows now message g rows s
      else (let r = orphaned now message row in
          let (persisted, s') = persist_status ops policy r error (some message) s in
          let (recovered, s'') = recover_rows now message g rows s' in
          (if persisted then r ∷ recovered else recovered, s''))

  abbrev pub recover_listed :
      ℕ → String → Registry J → Attempt (List (Row J)) × S → List (RunRecord J) × Option S
  recover_listed now message g (done rows, s) = recover_rows now message g rows (some s)
  recover_listed now message g (failed _, s) = ([], some s)

  unfoldable pub reconcile_orphaned_inflight_runs :
      ℕ → String → Option ℕ → Manager J S → List (RunRecord J) × Manager J S
  unfolding recover_rows
  reconcile_orphaned_inflight_runs now message before m = elim m.store [
    | none ↦ ([], m)
    | some s ↦
        let (recovered, s') =
          recover_listed now message m.registry
            (with_retry ops policy (ops.list_inflight before) s) in
        (recovered, record m { store = s' })
  ]

  -- `cleanup`
  abbrev pub cleanup_run : String → Manager J S → Manager J S
  cleanup_run run_id m = record m { registry = cleanup run_id m.registry }
