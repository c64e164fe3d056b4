-- ===== src/Runs/Manager/Methods.antt =====
-- The methods of `RunManager` (packages/harness/deerflow/runtime/runs/manager.py) after a run's
-- creation: look-ups with hydration from the store, status changes with their persistence, usage
-- reports.
use deer_seek_backend.Prelude.{
  ℕ, String, Bool, true, false, ◌&&◌, not, Option, none, some, List, [], ◌∷◌, ◌==◌, string_eq, ◌-◌,
  if◌then◌else◌, take, length, sorted_reverse,
}
use deer_seek_backend.Dict.{Dict, get, has, put, values}
use deer_seek_backend.Runs.Status.{RunStatus, interrupted, is_inflight, is_interrupted, is_running}
use deer_seek_backend.Runs.Registry.{RunRecord, Registry, thread_records, modify, interrupt}
use deer_seek_backend.Runs.Store.{
  Row, Payload, UsageUpdate, given_some, apply_usage, Attempt, done, failed, RunStore,
  store_put_payload, record_from_store,
}
use deer_seek_backend.Runs.Store.Retry.{RetryPolicy}
use deer_seek_backend.Runs.Manager.{Manager, with_retry, persist_snapshot, persist_status}

module _ {J : Type 0} where
  unfoldable pub hydrated : Attempt (Option (Row J)) → Option (RunRecord J)
  hydrated (done (some row)) = some (record_from_store row)
  hydrated (done none) = none
  hydrated (failed _) = none

  -- `{record.run_id: record for record in memory_records}`
  unfoldable pub by_id : List (RunRecord J) → Dict String (RunRecord J) → Dict String (RunRecord J)
  by_id [] d = d
  by_id (r ∷ rs) d = by_id rs (put d r.run_id r)

  -- The loop over the store's rows in `list_by_thread`.
  unfoldable pub merge_rows : List (Row J) → Dict String (RunRecord J) → Dict String (RunRecord J)
  merge_rows [] d = d
  merge_rows (row ∷ rows) d = merge_rows rows (
      if not (row.run_id == "") && not (has d row.run_id)
      then put d row.run_id (record_from_store row)
      else d)

  abbrev pub newest : ℕ → List (RunRecord J) → List (RunRecord J)
  newest limit rs = take limit (sorted_reverse (λ r. r.created_at) rs)

  unfoldable pub merged : ℕ → List (RunRecord J) → Attempt (List (Row J)) → List (RunRecord J)
  unfolding by_id merge_rows
  merged limit memory (done rows) = newest limit (values (merge_rows rows (by_id memory [])))
  merged limit memory (failed _) = newest limit memory

  abbrev pub set_record_status : ℕ → RunStatus → Option String → RunRecord J → RunRecord J
  set_record_status now status message r = record r {
    status = status;
    updated_at = now;
    error = given_some message r.error;
  }

  abbrev pub report : ℕ → UsageUpdate → RunRecord J → RunRecord J
  report now k r = record r {
    error = given_some k.error r.error;
    usage = apply_usage k r.usage;
    updated_at = now;
  }

  abbrev pub set_model : ℕ → Option String → RunRecord J → RunRecord J
  set_model now model_name r = record r { model_name = model_name; updated_at = now }

module _ {J S : Type 0} (ops : RunStore J S) (policy : RetryPolicy) where
  unfoldable pub get_from_store :
      String → Option String → Registry J → Option S → Option (RunRecord J) × Manager J S
  unfolding hydrated
  get_from_store run_id user g none = (none, record { registry = g; store = none })
  get_from_store run_id user g (some s) =
      let (answer, s') = ops.get run_id user s in
      (
        elim (get g.runs run_id) [ some r ↦ some r | none ↦ hydrated answer ],
        record { registry = g; store = some s' },
      )

  -- `get`; `meanwhile` is what other calls do to the registry during the store's answer.
  unfoldable pub get_run :
      (Registry J → Registry J)
      → String
      → Option String
      → Manager J S
      → Option (RunRecord J) × Manager J S
  unfolding get_from_store
  get_run meanwhile run_id user m = elim (get m.registry.runs run_id) [
    | some r ↦ (some r, m)
    | none ↦ get_from_store run_id user (meanwhile m.registry) m.store
  ]

  -- `list_by_thread`
  unfoldable pub list_by_thread :
      String → Option String → ℕ → Manager J S → List (RunRecord J) × Manager J S
  unfolding merged
  list_by_thread thread user limit m =
      let memory = thread_records m.registry thread in
      elim m.store [
        | none ↦ (newest limit memory, m)
        | some s ↦
            let (answer, s') = ops.list_by_thread thread user (limit - length memory) s in
            (merged limit memory answer, record m { store = some s' })
      ]

  -- `set_status`
  unfoldable pub set_status : ℕ → String → RunStatus → Option String → Manager J S → Manager J S
  unfolding modify persist_status
  set_status now run_id status message m = elim (get m.registry.runs run_id) [
    | none ↦ m
    | some r ↦ record {
      registry = modify (set_record_status now status message) run_id m.registry;
      store =
          (persist_status ops policy (set_record_status now status message r) status message
            m.store).1;
    }
  ]

  -- `_persist_model_name`
  unfoldable pub persist_model_name : String → Option String → Option S → Option S
  persist_model_name run_id model_name none = none
  persist_model_name run_id model_name (some s) =
      some (with_retry ops policy (ops.update_model_name run_id model_name) s).1

  -- `update_model_name`
  unfoldable pub update_model_name : ℕ → String → Option String → Manager J S → Manager J S
  unfolding modify persist_model_name
  update_model_name now run_id model_name m = elim (get m.registry.runs run_id) [
    | none ↦ m
    | some r ↦ record {
      registry = modify (set_model now model_name) run_id m.registry;
      store = persist_model_name run_id model_name m.store;
    }
  ]

  -- `cancel`, of a run that is known
  cancel_known : ℕ → String → String → RunRecord J → Manager J S → Bool × Manager J S
  unfolding modify interrupt persist_status
  cancel_known now action run_id r m =
      if is_interrupted r.status
      then (true, m)
      else if not (is_inflight r.status)
      then (false, m)
      else (
        true,
        record {
          registry = modify (interrupt action now) run_id m.registry;
          store = (persist_status ops policy (interrupt action now r) interrupted none m.store).1;
        },
      )

  unfoldable pub cancel : ℕ → String → String → Manager J S → Bool × Manager J S
  unfolding cancel_known
  cancel now action run_id m = elim (get m.registry.runs run_id) [
    | none ↦ (false, m)
    | some r ↦ cancel_known now action run_id r m
  ]

  -- The store's part of `update_run_completion`: a missing row is written again where the run is
  -- known, and then reported to once more.
  complete_recovered : String → RunStatus → UsageUpdate → Bool × Option S → Option S
  complete_recovered run_id status k (true, some s) =
      some (with_retry ops policy (ops.update_run_completion run_id status k) s).1
  complete_recovered run_id status k (_, s) = s

  complete_again :
      String → RunStatus → UsageUpdate → Option (Payload J) → Attempt Bool × S → Option S
  unfolding persist_snapshot complete_recovered
  complete_again run_id status k (some payload) (done false, s) =
      complete_recovered run_id status k (persist_snapshot ops policy run_id payload (some s))
  complete_again run_id status k _ (_, s) = some s

  unfoldable pub persist_completion :
      String → RunStatus → UsageUpdate → Option (Payload J) → Option S → Option S
  unfolding complete_again
  persist_completion run_id status k payload none = none
  persist_completion run_id status k payload (some s) =
      complete_again run_id status k payload
        (with_retry ops policy (ops.update_run_completion run_id status k) s)

  -- `update_run_completion`
  unfoldable pub update_run_completion :
      ℕ → String → RunStatus → UsageUpdate → Manager J S → Manager J S
  unfolding modify persist_completion
  update_run_completion now run_id status k m = record {
    registry = modify (report now k) run_id m.registry;
    store =
        persist_completion run_id status k
          (elim (get m.registry.runs run_id) [
            | none ↦ none
            | some r ↦ some (store_put_payload (report now k r) k.error)
          ])
          m.store;
  }

  persist_progress : String → UsageUpdate → Option S → Option S
  persist_progress run_id k none = none
  persist_progress run_id k (some s) = some (ops.update_run_progress run_id k s).1

  -- `update_run_progress`: of a run that is not known, the store alone decides.
  unfoldable pub update_run_progress : ℕ → String → UsageUpdate → Manager J S → Manager J S
  unfolding modify persist_progress
  update_run_progress now run_id k m = elim (get m.registry.runs run_id) [
    | none ↦ record m { store = persist_progress run_id k m.store }
    | some r ↦
        if is_running r.status
        then record {
          registry = modify (report now k) run_id m.registry;
          store = persist_progress run_id k m.store;
        }
        else m
  ]
