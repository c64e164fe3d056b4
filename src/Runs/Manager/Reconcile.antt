-- ===== src/Runs/Manager/Reconcile.antt =====
-- `reconcile_orphaned_inflight_runs` with the in-memory store: which rows it marks as errors.
use deer_seek_backend.Prelude.{
  ℕ, String, ◌≡◌, refl, ◌∙◌, Bool, true, false, ◌==◌, not, some, List, map, keep, [], ◌∷◌, ◌&&◌,
  any, leb, ◌≤◌, arith, eq_iff, string_eq, if◌then◌else◌, Bool-cases, inl, inr, Option,
  any-keep_and, any-sorted, if-or,
}
use deer_seek_backend.Dict.{values, get}
use deer_seek_backend.Runs.Status.{error, is_inflight}
use deer_seek_backend.Runs.Registry.{RunRecord, Registry}
use deer_seek_backend.Runs.Store.{Row, given, record_from_store}
use deer_seek_backend.Runs.Store.Retry.{RetryPolicy, retry_done}
use deer_seek_backend.Runs.Store.Memory.{Rows, memory_store, list_inflight}
use deer_seek_backend.Runs.Manager.{Manager}
use deer_seek_backend.Runs.Manager.Orphans.{
  recover_rows, is_live, orphaned, reconcile_orphaned_inflight_runs,
}
use deer_seek_backend.Runs.Manager.Recover.{
  persisted, persist_status_memory, persisted_status, row_status,
}

module _ {J : Type 0} (policy : RetryPolicy) (now : ℕ) (message : String) (g : Registry J) where
  abbrev orphans : List (Row J) → List (Row J)
  orphans = keep (λ row. not (is_live g row.run_id))

  abbrev names : String → List (Row J) → Bool
  names j = any (λ row. row.run_id == j)

  -- The rows after each of the listed is written as an error.
  fail_all : List (Row J) → Rows J → Rows J
  fail_all [] rows = rows
  fail_all (row ∷ listed) rows =
      fail_all listed (persisted policy now (orphaned now message row) error (some message) rows)

  recover_rows-fail_all :
      (listed : List (Row J)) (rows : Rows J)
      → recover_rows (memory_store now) policy now message g listed (some rows)
        ≡ (map (orphaned now message) (orphans listed), some (fail_all (orphans listed) rows))
  unfolding recover_rows fail_all
  recover_rows-fail_all [] rows = refl
  recover_rows-fail_all (row ∷ listed) rows = elim (Bool-cases (is_live g row.run_id)) [
    | inl live ↦ rw live (recover_rows-fail_all listed rows)
    | inr gone ↦
        let r = orphaned now message row in
        rw
          (
            gone,
            persist_status_memory policy now r error (some message) rows,
            recover_rows-fail_all listed (persisted policy now r error (some message) rows),
          )
          refl
  ]

  fail_all-status :
      (j : String) (listed : List (Row J)) (rows : Rows J)
      → row_status (some (fail_all listed rows)) j
        ≡ (if names j listed then some error else row_status (some rows) j)
  unfolding fail_all record_from_store
  fail_all-status j [] rows = refl
  fail_all-status j (row ∷ listed) rows =
      let r = orphaned now message row in
      fail_all-status j listed (persisted policy now r error (some message) rows)
      ∙ rw (persisted_status policy now r error (some message) rows refl j)
          (if-or (row.run_id == j) (names j listed) _ _)

  abbrev pub reconciled : Option ℕ → Rows J → List (RunRecord J) × Manager J (Rows J)
  reconciled before rows =
      reconcile_orphaned_inflight_runs (memory_store now) policy now message before
        (record { registry = g; store = some rows })

  -- The rows that the store lists as in flight and that no task of this process runs.
  abbrev pub orphan_rows : Option ℕ → Rows J → List (Row J)
  orphan_rows before rows = orphans (list_inflight (given before now) rows)

  reconcile_lem :
      (before : Option ℕ) (rows : Rows J)
      → reconciled before rows ≡ (
        map (orphaned now message) (orphan_rows before rows),
        record { registry = g; store = some (fail_all (orphan_rows before rows) rows) },
      )
  unfolding reconcile_orphaned_inflight_runs
  reconcile_lem before rows =
      let listed = list_inflight (given before now) rows in
      rw
        (
          retry_done policy ((memory_store now).list_inflight before) rows rows listed refl,
          recover_rows-fail_all listed rows,
        )
        refl

  pub reconcile_status :
      (before : Option ℕ) (rows : Rows J) (j : String)
      → row_status (reconciled before rows).1.store j
        ≡ (if names j (orphan_rows before rows) then some error else row_status (some rows) j)
  reconcile_status before rows j =
      rw (reconcile_lem before rows) (fail_all-status j (orphan_rows before rows) rows)

any-values :
    {J : Type 0} (p : Row J → Bool) (j : String) (row : Row J) (rows : Rows J)
    → get rows j ≡ some row
    → p row ≡ true
    → any p (values rows) ≡ true
unfolding get
any-values p j row [] found h = cc
any-values p j row ((i, x) ∷ rows) found h = ground (arith, any-values p j row rows)

module _ {J : Type 0} (policy : RetryPolicy) (now : ℕ) (message : String) (g : Registry J)
    (before : Option ℕ) (rows : Rows J) where
  listed_orphan : Row J → String → Bool
  listed_orphan row j =
      ((is_inflight row.status && leb row.created_at (given before now))
        && (not (is_live g row.run_id) && row.run_id == j))

  names-orphan_rows :
      (j : String)
      → names policy now message g j (orphan_rows policy now message g before rows)
        ≡ any (λ row. listed_orphan row j) (values rows)
  unfolding list_inflight listed_orphan
  names-orphan_rows j =
      any-keep_and (λ row. row.run_id == j) (λ row. not (is_live g row.run_id)) _
      ∙ any-sorted _ (λ row. not (is_live g row.run_id) && row.run_id == j) _
      ∙ any-keep_and (λ row. not (is_live g row.run_id) && row.run_id == j) _ (values rows)

  -- A run with no live task here, whose row was in flight and old enough, has the status error in the
  -- store after the reconciliation.
  pub orphan_fails :
      (j : String) (row : Row J)
      → get rows j ≡ some row
      → row.run_id ≡ j
      → is_inflight row.status ≡ true
      → row.created_at ≤ given before now
      → is_live g j ≡ false
      → row_status (reconciled policy now message g before rows).1.store j ≡ some error
  unfolding listed_orphan
  orphan_fails j row found keyed busy old gone =
      let gone' : is_live g row.run_id ≡ false = rw keyed gone in
      let named : names policy now message g j (orphan_rows policy now message g before rows)
          ≡ true =
        names-orphan_rows j
        ∙ any-values (λ x. listed_orphan x j) j row rows found
            (ground (arith, busy, old, eq_iff row.run_id j, gone')) in
      rw (reconcile_status policy now message g before rows j, named) refl

  none_named :
      (j : String) (listed : List (Row J))
      → is_live g j ≡ true
      → names policy now message g j (orphans policy now message g listed) ≡ false
  none_named j [] live = refl
  none_named j (row ∷ listed) live = ground (arith, none_named j listed, eq_iff row.run_id j)

  -- The status of a run with a live task here is as it was.
  pub live_kept :
      (j : String)
      → is_live g j ≡ true
      → row_status (reconciled policy now message g before rows).1.store j
        ≡ row_status (some rows) j
  live_kept j live =
      rw
        (
          reconcile_status policy now message g before rows j,
          none_named j (list_inflight (given before now) rows) live,
        )
        refl
