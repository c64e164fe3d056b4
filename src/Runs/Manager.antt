-- ===== src/Runs/Manager.antt =====
-- packages/harness/deerflow/runtime/runs/manager.py: the methods of `RunManager` over the registry and
-- an optional store, each with what it persists after its changes in memory. `now` is the clock at the
-- call, and a new run's id, from `uuid4`, is given in its record.
pub mod Cancel
pub mod Create
pub mod Methods
pub mod Orphans
pub mod Preserve
pub mod Shutdown
pub mod Drain
pub mod Recover
pub mod Reconcile
pub mod Listing
pub mod Invariant
use deer_seek_backend.Prelude.{
  ℕ, String, Bool, true, false, ◌||◌, ◌&&◌, not, Option, none, some, List, [], ◌∷◌, ◌++◌, ◌==◌,
  string_eq, nat_eq, ◌-◌, if◌then◌else◌, map, take, length, sorted_reverse,
}
use deer_seek_backend.Dict.{Dict, get, has, put, values}
use deer_seek_backend.Runs.Status.{
  RunStatus, DisconnectMode, pending, running, error, interrupted, is_inflight, is_interrupted,
  is_running,
}
use deer_seek_backend.Runs.Registry.{
  RunRecord, Registry, thread_records, insert, remove, modify, interrupt, interrupt_all, active,
}
use deer_seek_backend.Runs.Store.{
  Row, Payload, UsageUpdate, given_some, apply_usage, Attempt, done, failed, Call, RunStore,
  store_put_payload, record_from_store,
}
use deer_seek_backend.Runs.Store.Retry.{RetryPolicy, Retried, retry}

pub record Manager (J S : Type 0) : Type 0 where
  pub registry : Registry J
  pub store : Option S

-- How `create_or_reject` ends: with the new record, or with an exception.
pub data Created (J : Type 0) : Type 0 where
  created : RunRecord J → Created J
  conflict unsupported not_persisted : Created J

abbrev supported_strategy : String → Bool
supported_strategy s = s == "reject" || s == "interrupt" || s == "rollback"

abbrev pub cancels_inflight : String → Bool
cancels_inflight s = s == "interrupt" || s == "rollback"

module _ {J S : Type 0} (ops : RunStore J S) (policy : RetryPolicy) where
  -- A store call with retries, of a manager that has a store: how it ended, and the store after it.
  abbrev with_retry : {A : Type 0} → Call S A → S → Attempt A × S
  with_retry operation s = let r = retry policy operation s in (r.result, r.store)

  abbrev succeeded : Attempt (Unit {0}) → Bool
  succeeded (done _) = true
  succeeded (failed _) = false

  -- `_persist_snapshot_to_store`
  unfoldable pub persist_snapshot : String → Payload J → Option S → Bool × Option S
  persist_snapshot run_id payload none = (true, none)
  persist_snapshot run_id payload (some s) =
      let (r, s') = with_retry (ops.put run_id payload) s in (succeeded r, some s')

  -- `_persist_new_run_to_store`: false where it raises.
  unfoldable pub persist_new_run : RunRecord J → Option S → Bool × Option S
  persist_new_run r none = (true, none)
  persist_new_run r (some s) =
      let (a, s') = with_retry (ops.put r.run_id (store_put_payload r none)) s in
      (succeeded a, some s')

  recover_row : String → Payload J → Attempt Bool × S → Bool × Option S
  unfolding persist_snapshot
  recover_row run_id payload (done true, s) = (true, some s)
  recover_row run_id payload (done false, s) = persist_snapshot run_id payload (some s)
  recover_row run_id payload (failed _, s) = (false, some s)

  -- `_persist_status`: a row that is missing is written again from the record.
  unfoldable pub persist_status :
      RunRecord J → RunStatus → Option String → Option S → Bool × Option S
  unfolding recover_row
  persist_status r status message none = (true, none)
  persist_status r status message (some s) =
      recover_row r.run_id (store_put_payload r message)
        (with_retry (ops.update_status r.run_id status message) s)

  -- The trailing loop of `create_or_reject`, over the records as they then are.
  unfoldable pub persist_interrupted : List (RunRecord J) → Option S → Option S
  unfolding persist_status
  persist_interrupted [] s = s
  persist_interrupted (r ∷ rs) s = persist_interrupted rs (persist_status r interrupted none s).1

  undo_unless : Bool → RunRecord J → Manager J S → Created J × Manager J S
  undo_unless true r m = (created r, m)
  undo_unless false r m =
      (not_persisted, record m { registry = remove r.run_id r.thread_id m.registry })

  -- The insert and the store's row, of `create` and of `create_or_reject`: one of them without the
  -- other is undone.
  unfoldable pub insert_persisted : RunRecord J → Manager J S → Created J × Manager J S
  unfolding persist_new_run undo_unless
  insert_persisted r m =
      let (ok, s) = persist_new_run r m.store in
      undo_unless ok r (record { registry = insert r m.registry; store = s })

  cancel_inflight :
      String → ℕ → List (RunRecord J) → Created J × Manager J S → Created J × Manager J S
  unfolding persist_interrupted
  cancel_inflight strategy now inflight (created r, m) =
      if cancels_inflight strategy
      then (
        created r,
        record {
          registry = interrupt_all strategy now inflight m.registry;
          store = persist_interrupted (map (interrupt strategy now) inflight) m.store;
        },
      )
      else (created r, m)
  cancel_inflight strategy now inflight (other, m) = (other, m)

  -- `create`
  unfoldable pub create : RunRecord J → Manager J S → Created J × Manager J S
  unfolding insert_persisted
  create r m = insert_persisted r m

  -- `create_or_reject`, of a record with its strategy in it. All but the last persisting runs under the
  -- lock.
  unfoldable pub create_or_reject : ℕ → RunRecord J → Manager J S → Created J × Manager J S
  unfolding insert_persisted cancel_inflight
  create_or_reject now r m =
      let strategy = r.multitask_strategy in
      let inflight = active (thread_records m.registry r.thread_id) in
      if not (supported_strategy strategy)
      then (unsupported, m)
      else if strategy == "reject" && not (length inflight == 0)
      then (conflict, m)
      else cancel_inflight strategy now inflight (insert_persisted r m)
