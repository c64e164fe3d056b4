-- ===== src/Runs/Manager/Recover.antt =====
-- What the methods leave in the store, with the in-memory store behind the manager: a status reaches
-- the row also when the row was missing, and orphaned rows end as errors.
use deer_seek_backend.Prelude.{
  ℕ, String, ◌≡◌, refl, sym, ◌∙◌, true, false, ◌==◌, none, some, string_eq, if◌then◌else◌,
  Option-cases, Bool-cases, inl, inr, Option,
}
use deer_seek_backend.Dict.{get, has, put}
use deer_seek_backend.Dict.Laws.{get-put}
use deer_seek_backend.Runs.Status.{RunStatus}
use deer_seek_backend.Runs.Registry.{RunRecord, Registry}
use deer_seek_backend.Runs.Store.{Row, Payload, done, store_put_payload}
use deer_seek_backend.Runs.Store.Retry.{RetryPolicy, retry_done}
use deer_seek_backend.Runs.Store.Memory.{
  Rows, memory_store, put_row, update_status, set_row_status, change_row,
}
use deer_seek_backend.Runs.Manager.{persist_status, recover_row, persist_snapshot}
use deer_seek_backend.Runs.Manager.Methods.{set_status, set_record_status}

module _ {J : Type 0} (policy : RetryPolicy) (now : ℕ) (r : RunRecord J) (status : RunStatus)
    (message : Option String) where
  -- The rows after a status is persisted.
  abbrev pub persisted : Rows J → Rows J
  persisted rows = elim (get rows r.run_id) [
    | none ↦ put_row now r.run_id (store_put_payload r message) rows
    | some row ↦ put rows r.run_id (set_row_status now status message row)
  ]

  update_missing :
      (rows : Rows J)
      → get rows r.run_id ≡ none
      → (memory_store now).update_status r.run_id status message rows ≡ (done false, rows)
  unfolding update_status change_row has
  update_missing rows missing = rw (missing, has, change_row) refl

  update_found :
      (rows : Rows J) (row : Row J)
      → get rows r.run_id ≡ some row
      → (memory_store now).update_status r.run_id status message rows
        ≡ (done true, put rows r.run_id (set_row_status now status message row))
  unfolding update_status change_row has
  update_found rows row found = rw (found, has, change_row) refl

  persisted_missing :
      (rows : Rows J)
      → get rows r.run_id ≡ none
      → persisted rows ≡ put_row now r.run_id (store_put_payload r message) rows
  persisted_missing rows missing = rw (missing, persisted) refl

  pub persisted_found :
      (rows : Rows J) (row : Row J)
      → get rows r.run_id ≡ some row
      → persisted rows ≡ put rows r.run_id (set_row_status now status message row)
  persisted_found rows row found = rw (found, persisted) refl

  persist_snapshot_memory :
      (i : String) (p : Payload J) (rows : Rows J)
      → persist_snapshot (memory_store now) policy i p (some rows)
        ≡ (true, some (put_row now i p rows))
  unfolding persist_snapshot
  persist_snapshot_memory i p rows =
      let call = (memory_store now).put i p in
      rw (retry_done policy call rows (put_row now i p rows) tt refl) refl

  pub persist_status_memory :
      (rows : Rows J)
      → persist_status (memory_store now) policy r status message (some rows)
        ≡ (true, some (persisted rows))
  unfolding persist_status recover_row persist_snapshot
  persist_status_memory rows = elim (Option-cases (get rows r.run_id)) [
    | inl missing ↦
        let call = (memory_store now).update_status r.run_id status message in
        rw (retry_done policy call rows rows false (update_missing rows missing)) (
          persist_snapshot_memory r.run_id (store_put_payload r message) rows
          ∙ rw (persisted_missing rows missing) refl)
    | inr (row, found) ↦
        let call = (memory_store now).update_status r.run_id status message in
        let rows' = put rows r.run_id (set_row_status now status message row) in
        rw (retry_done policy call rows rows' true (update_found rows row found))
          (rw (persisted_found rows row found) refl)
  ]

-- The status of a row in an optional store.
abbrev pub row_status : {J : Type 0} → Option (Rows J) → String → Option RunStatus
row_status none i = none
row_status (some rows) i = elim (get rows i) [ none ↦ none | some row ↦ some row.status ]

pub row_status-put :
    {J : Type 0} (rows : Rows J) (i j : String) (v : Row J)
    → row_status (some (put rows i v)) j
      ≡ (if i == j then some v.status else row_status (some rows) j)
row_status-put rows i j v = elim (Bool-cases (i == j)) [
  | inl hit ↦ rw (row_status, get-put rows i j v, hit) refl
  | inr miss ↦ rw (row_status, get-put rows i j v, miss) refl
]

module _ {J : Type 0} (policy : RetryPolicy) (now : ℕ) (r : RunRecord J) (status : RunStatus)
    (message : Option String) (rows : Rows J) (same : r.status ≡ status) where
  pub persisted_status :
      (j : String)
      → row_status (some (persisted policy now r status message rows)) j
        ≡ (if r.run_id == j then some status else row_status (some rows) j)
  unfolding put_row store_put_payload
  persisted_status j = elim (Option-cases (get rows r.run_id)) [
    | inl missing ↦
        rw (persisted_missing policy now r status message rows missing)
          (row_status-put rows r.run_id j _ ∙ rw same refl)
    | inr (row, found) ↦
        rw (persisted_found policy now r status message rows row found)
          (row_status-put rows r.run_id j _)
  ]

module _ {J : Type 0} (policy : RetryPolicy) (now : ℕ) (g : Registry J) (rows : Rows J) where
  -- A status that is set on a known run is in the run's row afterwards, whether the row was there or
  -- had been lost, and the statuses of the other rows are as they were.
  pub set_status_persists :
      (i j : String) (status : RunStatus) (message : Option String) (r : RunRecord J)
      → get g.runs i ≡ some r
      → r.run_id ≡ i
      → row_status
          (set_status
            (memory_store now)
            policy
            now
            i
            status
            message
            (record { registry = g; store = some rows })).store
          j
        ≡ (if i == j then some status else row_status (some rows) j)
  unfolding set_status
  set_status_persists i j status message r found keyed =
      let r' = set_record_status now status message r in
      rw (found, set_status, persist_status_memory policy now r' status message rows)
        (rw (sym keyed) (persisted_status policy now r' status message rows refl j))
