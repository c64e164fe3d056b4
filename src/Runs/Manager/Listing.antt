-- ===== src/Runs/Manager/Listing.antt =====
-- `get` and `list_by_thread`: what is in memory comes before the store's rows, and a listing is
-- sorted and bounded.
use deer_seek_backend.Prelude.{
  ℕ, String, ◌≡◌, refl, ◌==◌, not, none, some, List, [], ◌∷◌, ◌&&◌, ◌≤◌, length, arith, string_eq,
  Option-cases, Bool-cases, inl, inr, Option, Falling, sorted_reverse, sorted_reverse-Falling,
  take-Falling, length-take,
}
use deer_seek_backend.Dict.{Dict, values, get, has, put}
use deer_seek_backend.Dict.Laws.{get-put_new}
use deer_seek_backend.Runs.Registry.{RunRecord, Registry, thread_records}
use deer_seek_backend.Runs.Store.{Row, Attempt, done, failed, RunStore, record_from_store}
use deer_seek_backend.Runs.Store.Retry.{RetryPolicy}
use deer_seek_backend.Runs.Manager.{Manager}
use deer_seek_backend.Runs.Manager.Methods.{
  get_run, list_by_thread, newest, merged, merge_rows, by_id, get_from_store,
}

module _ {J S : Type 0} (ops : RunStore J S) (policy : RetryPolicy) where
  -- A run that is in memory at the call, or that came to be there while the store was asked, is
  -- answered from memory.
  pub get_from_memory :
      (meanwhile : Registry J → Registry J) (i : String) (user : Option String) (m : Manager J S)
      (s : S) (r : RunRecord J)
      → m.store ≡ some s
      → get m.registry.runs i ≡ none
      → get (meanwhile m.registry).runs i ≡ some r
      → (get_run ops policy meanwhile i user m).0 ≡ some r
  unfolding get_run get_from_store
  get_from_memory meanwhile i user m s r stored absent found =
      rw (absent, get_run, stored, found, get_from_store) refl

module _ {J : Type 0} where
  abbrev pub IsListing : ℕ → List (RunRecord J) → Type 0
  IsListing limit rs = Falling (λ r. r.created_at) rs × (length rs ≤ limit)

  newest-IsListing : (limit : ℕ) (rs : List (RunRecord J)) → IsListing limit (newest limit rs)
  newest-IsListing limit rs = (
    take-Falling (λ r. r.created_at) limit (sorted_reverse (λ r. r.created_at) rs)
        (sorted_reverse-Falling (λ r. r.created_at) rs),
    omega (arith, length-take limit (sorted_reverse (λ r. r.created_at) rs)),
  )

  merged-IsListing :
      (limit : ℕ) (memory : List (RunRecord J)) (answer : Attempt (List (Row J)))
      → IsListing limit (merged limit memory answer)
  unfolding merged
  merged-IsListing limit memory (done rows) =
      newest-IsListing limit (values (merge_rows rows (by_id memory [])))
  merged-IsListing limit memory (failed b) = newest-IsListing limit memory

  -- The store's rows are added to what is there, and take no entry's place.
  pub merge_rows-get :
      (rows : List (Row J)) (d : Dict String (RunRecord J)) (i : String) (r : RunRecord J)
      → get d i ≡ some r
      → get (merge_rows rows d) i ≡ some r
  unfolding merge_rows
  merge_rows-get [] d i r found = found
  merge_rows-get (row ∷ rows) d i r found =
      elim (Bool-cases (not (row.run_id == "") && not (has d row.run_id))) [
        | inr kept ↦ rw kept (merge_rows-get rows d i r found)
        | inl new ↦ rw new (
            merge_rows-get rows (put d row.run_id (record_from_store row)) i r
              (get-put_new d row.run_id i (record_from_store row) r (ground (arith, new)) found))
      ]

module _ {J S : Type 0} (ops : RunStore J S) (policy : RetryPolicy) where
  pub list_by_thread-IsListing :
      (thread : String) (user : Option String) (limit : ℕ) (m : Manager J S)
      → IsListing limit (list_by_thread ops policy thread user limit m).0
  unfolding list_by_thread
  list_by_thread-IsListing thread user limit m = elim (Option-cases m.store) [
    | inl stored ↦
        rw (stored, list_by_thread) (newest-IsListing limit (thread_records m.registry thread))
    | inr (s, stored) ↦
        rw (stored, list_by_thread) (merged-IsListing limit (thread_records m.registry thread) _)
  ]
