-- ===== src/Runs/Manager/Drain.antt =====
-- What `shutdown` leaves in memory and in the in-memory store.
use deer_seek_backend.Prelude.{
  ℕ, String, ◌≡◌, refl, ap, ◌∙◌, Bool, true, false, not, Option, none, some, List, [], ◌∷◌, ◌==◌,
  string_eq, arith, eq_iff, if◌then◌else◌, take, map, any, Option-cases, Bool-cases, inl, inr, All,
  if-or, All-take-map, All-keep, any-take-map, subst,
}
use deer_seek_backend.Dict.{get, has, put}
use deer_seek_backend.Dict.Laws.{get-put, has-put}
use deer_seek_backend.Runs.Status.{interrupted, is_inflight}
use deer_seek_backend.Runs.Registry.{RunRecord, Registry, modify}
use deer_seek_backend.Runs.Store.{Row}
use deer_seek_backend.Runs.Store.Retry.{RetryPolicy}
use deer_seek_backend.Runs.Store.Memory.{Rows, memory_store, set_row_status}
use deer_seek_backend.Runs.Manager.{Manager, persist_status, persist_interrupted}
use deer_seek_backend.Runs.Manager.Cancel.{get-modify}
use deer_seek_backend.Runs.Manager.Recover.{
  persisted_found, persist_status_memory, row_status, row_status-put,
}
use deer_seek_backend.Runs.Manager.Shutdown.{
  Drained, is_completed, modify_all, settled, stopped, finish_shutdown,
}

abbrev pub change {ℓ} : {A : Type ℓ} → (A → A) → Option A → Option A
change f none = none
change f (some a) = some (f a)

abbrev pub names_run : {J : Type 0} → String → List (RunRecord J) → Bool
names_run j = any (λ r. r.run_id == j)

change_twice :
    {A : Type 0} (f : A → A)
    → ((a : A) → f (f a) ≡ f a)
    → (o : Option A) → change f (change f o) ≡ change f o
change_twice f twice none = refl
change_twice f twice (some a) = ap some (twice a)

module _ {J : Type 0} (f : RunRecord J → RunRecord J) where
  modify_hit : (i : String) (g : Registry J) → get (modify f i g).runs i ≡ change f (get g.runs i)
  unfolding modify get
  modify_hit i g = elim (Option-cases (get g.runs i)) [
    | inl missing ↦ rw (missing, modify, missing) refl
    | inr (r, found) ↦ get-modify f i g r found ∙ rw found refl
  ]

  modify_miss :
      (i j : String) (g : Registry J) → (i == j) ≡ false → get (modify f i g).runs j ≡ get g.runs j
  unfolding modify get
  modify_miss i j g other = elim (Option-cases (get g.runs i)) [
    | inl missing ↦ rw (missing, modify) refl
    | inr (r, found) ↦ rw (found, modify, get-put g.runs i j (f r), other) refl
  ]

  modify_all-get :
      ((r : RunRecord J) → f (f r) ≡ f r)
      → (rs : List (RunRecord J)) (j : String) (g : Registry J)
      → get (modify_all f rs g).runs j
        ≡ (if names_run j rs then change f (get g.runs j) else get g.runs j)
  unfolding modify_all
  modify_all-get twice [] j g = refl
  modify_all-get twice (r ∷ rs) j g =
      modify_all-get twice rs j (modify f r.run_id g) ∙ elim (Bool-cases (r.run_id == j)) [
        | inr other ↦ rw (modify_miss r.run_id j g other, other) refl
        | inl same ↦
            let e : r.run_id ≡ j = (eq_iff r.run_id j).0 same in
            let hit : get (modify f r.run_id g).runs j ≡ change f (get g.runs j) =
              subst (λ k. get (modify f r.run_id g).runs k ≡ change f (get g.runs k)) e
                (modify_hit r.run_id g) in
            rw (hit, same) (either (names_run j rs) (change_twice f twice (get g.runs j)))
      ]
    where
      either : {A : Type 0} (b : Bool) {x y : A} → x ≡ y → (if b then x else y) ≡ y
      either true e = e
      either false e = refl

found_row :
    {J : Type 0} (rows : Rows J) (i : String)
    → has rows i ≡ true
    → (row : Row J) × (get rows i ≡ some row)
unfolding has
found_row rows i h = elim (Option-cases (get rows i)) [
  | inl missing ↦ absurd (ground (arith, missing, h))
  | inr found ↦ found
]

still_there :
    {J : Type 0} (i : String) (row : Row J) (rows : Rows J) (rs : List (RunRecord J))
    → All (λ r. has rows r.run_id ≡ true) rs
    → All (λ r. has (put rows i row) r.run_id ≡ true) rs
still_there i row rows [] h = tt
still_there i row rows (r ∷ rs) h =
    (ground (arith, has-put rows i r.run_id row, h.0), still_there i row rows rs h.1)

module _ {J : Type 0} (policy : RetryPolicy) (now : ℕ) where
  persist_interrupted-status :
      (rs : List (RunRecord J)) (rows : Rows J)
      → All (λ r. has rows r.run_id ≡ true) rs
      → (j : String)
      → row_status (persist_interrupted (memory_store now) policy rs (some rows)) j
        ≡ (if names_run j rs then some interrupted else row_status (some rows) j)
  unfolding persist_interrupted
  persist_interrupted-status [] rows h j = refl
  persist_interrupted-status (r ∷ rs) rows h j =
      let (row, found) = found_row rows r.run_id h.0 in
      let rows' = put rows r.run_id (set_row_status now interrupted none row) in
      let wrote : persist_status (memory_store now) policy r interrupted none (some rows)
          ≡ (true, some rows') =
        persist_status_memory policy now r interrupted none rows
        ∙ ap (λ x. (true, some x)) (persisted_found policy now r interrupted none rows row found) in
      rw wrote (
        persist_interrupted-status rs rows'
          (still_there r.run_id (set_row_status now interrupted none row) rows rs h.1) j
        ∙ rw (row_status-put rows r.run_id j (set_row_status now interrupted none row))
            (if-or (r.run_id == j) (names_run j rs) (some interrupted) (row_status (some rows) j)))

  settled_twice : (r : RunRecord J) → settled now (settled now r) ≡ settled now r
  unfolding settled
  settled_twice r = elim (Bool-cases (is_inflight r.status)) [
    | inl busy ↦ rw (busy) refl
    | inr idle ↦ rw (idle, idle) refl
  ]

  settled_id : (r : RunRecord J) → (settled now r).run_id ≡ r.run_id
  unfolding settled
  settled_id r = elim (Bool-cases (is_inflight r.status)) [
    | inl busy ↦ rw busy refl
    | inr idle ↦ rw idle refl
  ]

  -- In memory, a run that was stopped by the shutdown is interrupted if it was still pending or running,
  -- and every other run, one that completed by itself included, keeps its record.
  pub finish_shutdown-memory :
      (outcome : String → Drained) (in_time : ℕ) (drained : List (RunRecord J))
      (m : Manager J (Rows J)) (j : String)
      → get
          (finish_shutdown (memory_store now) policy now outcome in_time drained m).registry.runs
          j
        ≡ (if names_run j (stopped outcome drained)
            then change (settled now) (get m.registry.runs j)
            else get m.registry.runs j)
  unfolding finish_shutdown
  finish_shutdown-memory outcome in_time drained m j =
      modify_all-get (settled now) settled_twice (stopped outcome drained) j m.registry

  -- In the store, where each drained run has a row, exactly the runs that were stopped and reached it
  -- in time are interrupted, whatever status they had set for themselves before.
  pub finish_shutdown-store :
      (outcome : String → Drained) (in_time : ℕ) (drained : List (RunRecord J)) (g : Registry J)
      (rows : Rows J)
      → All (λ r. has rows r.run_id ≡ true) drained
      → (j : String)
      → row_status
          (finish_shutdown
            (memory_store now)
            policy
            now
            outcome
            in_time
            drained
            (record { registry = g; store = some rows })).store
          j
        ≡ (if names_run j (take in_time (stopped outcome drained))
            then some interrupted
            else row_status (some rows) j)
  unfolding finish_shutdown
  finish_shutdown-store outcome in_time drained g rows h j =
      persist_interrupted-status (take in_time (map (settled now) (stopped outcome drained))) rows
        (All-take-map (λ r. has rows r.run_id ≡ true) (settled now) (λ r a. rw (settled_id r) a)
          in_time (stopped outcome drained)
          (All-keep (λ r. has rows r.run_id ≡ true) (λ r. not (is_completed (outcome r.run_id)))
            drained h))
        j
      ∙ rw
          (any-take-map (λ r. r.run_id == j) (settled now) (λ r. rw (settled_id r) refl) in_time
            (stopped outcome drained))
          refl
