-- ===== src/Runs/Manager/Create.antt =====
-- `create_or_reject`: whatever the store does, a new run is the only one in flight on its thread, and
-- an attempt that fails leaves the registry as it was.
use deer_seek_backend.Prelude.{
  ℕ, String, ◌≡◌, ◌≢◌, refl, ap, sym, ◌∙◌, Bool, true, false, ◌==◌, List, [], ◌∷◌, ◌++◌, map, arith,
  eq_iff, string_eq, nat_eq, if◌then◌else◌, keep, contains, Bool-cases, inl, inr, ◌⊎◌, keep-append,
  Option, length, any-keep,
}
use mathlib.Core.List.{map-append}
use mathlib.Core.Path.{ap₂}
use deer_seek_backend.Dict.{values, has}
use deer_seek_backend.Dict.Laws.{put_absent, contains-keys}
use deer_seek_backend.Runs.Status.{is_inflight}
use deer_seek_backend.Runs.Registry.{
  RunRecord, Registry, thread_records, insert, interrupt, interrupt_all, active, has_inflight,
}
use deer_seek_backend.Runs.Registry.Index.{
  IsIndexed, ids_of, insert-IsIndexed, values-append, contains-ids_keep, ids-values,
}
use deer_seek_backend.Runs.Registry.Rollback.{remove-insert, interrupt_all-IsIndexed}
use deer_seek_backend.Runs.Registry.Active.{
  in_flight_on, active-scan, values-interrupt_all, marked, map_marked, change_in,
}
use deer_seek_backend.Runs.Store.{RunStore}
use deer_seek_backend.Runs.Store.Retry.{RetryPolicy}
use deer_seek_backend.Runs.Manager.{
  Manager, Created, created, conflict, cancels_inflight, cancel_inflight, undo_unless,
  supported_strategy, create_or_reject,
}

-- The records of all runs after a creation on a thread, before the new one.
abbrev pub superseded : {J : Type 0} → String → String → ℕ → List (RunRecord J) → List (RunRecord J)
superseded strategy thread now =
    map (λ x. if in_flight_on thread x then interrupt strategy now x else x)

module _ {J : Type 0} (strategy thread : String) (now : ℕ) where
  none_left :
      (rs : List (RunRecord J))
      → keep (in_flight_on thread) (superseded strategy thread now rs) ≡ []
  unfolding interrupt
  none_left [] = refl
  none_left (r ∷ rs) = ground (arith, none_left rs)

  superseded_none :
      (rs : List (RunRecord J))
      → keep (in_flight_on thread) rs ≡ []
      → superseded strategy thread now rs ≡ rs
  superseded_none [] h = refl
  superseded_none (r ∷ rs) h = ground (arith, superseded_none rs)

module _ {J : Type 0} (g : Registry J) (h : IsIndexed g) (r : RunRecord J)
    (fresh : has g.runs r.run_id ≡ false) where
  values-insert : values (insert r g).runs ≡ values g.runs ++ r ∷ []
  unfolding insert
  values-insert =
      ap values (put_absent g.runs r.run_id r fresh) ∙ values-append g.runs ((r.run_id, r) ∷ [])

  values_interrupted_insert :
      (strategy : String) (now : ℕ)
      → values
          (interrupt_all strategy now (active (thread_records g r.thread_id)) (insert r g)).runs
        ≡ superseded strategy r.thread_id now (values g.runs) ++ r ∷ []
  values_interrupted_insert strategy now =
      let p = in_flight_on r.thread_id in
      let f = interrupt strategy now in
      let inflight = keep p (values g.runs) in
      let absent : contains r.run_id (ids_of inflight) ≡ false =
        contains-ids_keep r.run_id p (values g.runs)
          (rw (ids-values g.runs h.keyed, contains-keys g.runs r.run_id) fresh) in
      let kept : map (change_in (ids_of inflight) f) (r ∷ []) ≡ r ∷ [] = ground (arith, absent) in
      let changed : map (change_in (ids_of inflight) f) (values g.runs)
          ≡ superseded strategy r.thread_id now (values g.runs) =
        map_marked p (ids_of inflight) f (values g.runs)
          (marked p (values g.runs) (rw (ids-values g.runs h.keyed) h.distinct)) in
      rw (active-scan g r.thread_id h) (
        values-interrupt_all strategy now inflight (insert r g) (insert-IsIndexed g h r fresh)
        ∙ ap (map (change_in (ids_of inflight) f)) values-insert
        ∙ map-append (change_in (ids_of inflight) f) (values g.runs) (r ∷ [])
        ∙ ap₂ ◌++◌ changed kept)

  only_new :
      (strategy : String) (now : ℕ)
      → is_inflight r.status ≡ true
      → keep
          (in_flight_on r.thread_id)
          (superseded strategy r.thread_id now (values g.runs) ++ r ∷ [])
        ≡ r ∷ []
  only_new strategy now h =
      keep-append (in_flight_on r.thread_id) (superseded strategy r.thread_id now (values g.runs))
        (r ∷ [])
      ∙ rw (none_left strategy r.thread_id now (values g.runs))
          (ground (arith, eq_iff r.thread_id r.thread_id))

-- What a creation with record `r` promises of the registry `g'` after it, by its outcome.
unfoldable pub CreateSpec :
    {J : Type 0} → ℕ → RunRecord J → Registry J → Created J → Registry J → Type 0
CreateSpec now r g (created r') g' =
    (r' ≡ r)
    × IsIndexed g'
    × (values g'.runs ≡ superseded r.multitask_strategy r.thread_id now (values g.runs) ++ r ∷ [])
    × (active (thread_records g' r.thread_id) ≡ r ∷ [])
CreateSpec now r g conflict g' =
    (r.multitask_strategy ≡ "reject") × (has_inflight g r.thread_id ≡ true) × (g' ≡ g)
CreateSpec now r g _ g' = g' ≡ g

module _ {J S : Type 0} (ops : RunStore J S) (policy : RetryPolicy) (now : ℕ) (r : RunRecord J)
    (m : Manager J S) (h : IsIndexed m.registry) (fresh : has m.registry.runs r.run_id ≡ false)
    (starts : is_inflight r.status ≡ true) where
  abbrev inflight : List (RunRecord J)
  inflight = active (thread_records m.registry r.thread_id)

  has_busy : length inflight ≢ 0 → has_inflight m.registry r.thread_id ≡ true
  unfolding has_inflight
  has_busy = any-keep (λ x. is_inflight x.status) (thread_records m.registry r.thread_id)

  abbrev Meets : Created J × Manager J S → Type 0
  Meets x = CreateSpec now r m.registry x.0 x.1.registry

  created_CreateSpec :
      (g' : Registry J)
      → IsIndexed g'
      → values g'.runs
        ≡ superseded r.multitask_strategy r.thread_id now (values m.registry.runs) ++ r ∷ []
      → CreateSpec now r m.registry (created r) g'
  unfolding CreateSpec
  created_CreateSpec g' indexed vs = (
    refl,
    indexed,
    vs,
    active-scan g' r.thread_id indexed
        ∙ ap (keep (in_flight_on r.thread_id)) vs
        ∙ only_new m.registry h r fresh r.multitask_strategy now starts,
  )

  cancelling_Meets :
      (s : Option S)
      → cancels_inflight r.multitask_strategy ≡ true
      → Meets (
          cancel_inflight ops policy r.multitask_strategy now inflight
            (created r, record { registry = insert r m.registry; store = s }))
  unfolding cancel_inflight
  cancelling_Meets s c = rw c (
      created_CreateSpec (interrupt_all r.multitask_strategy now inflight (insert r m.registry))
        (interrupt_all-IsIndexed r.multitask_strategy now inflight (insert r m.registry)
          (insert-IsIndexed m.registry h r fresh))
        (values_interrupted_insert m.registry h r fresh r.multitask_strategy now))

  plain_Meets :
      (s : Option S)
      → cancels_inflight r.multitask_strategy ≡ false
      → inflight ≡ []
      → Meets (
          cancel_inflight ops policy r.multitask_strategy now inflight
            (created r, record { registry = insert r m.registry; store = s }))
  unfolding cancel_inflight
  plain_Meets s c idle = rw c (
      created_CreateSpec (insert r m.registry) (insert-IsIndexed m.registry h r fresh) (
        values-insert m.registry h r fresh
        ∙ ap (λ rs. rs ++ r ∷ [])
            (sym (
              superseded_none r.multitask_strategy r.thread_id now (values m.registry.runs)
                (sym (active-scan m.registry r.thread_id h) ∙ idle)))))

  inserted_Meets :
      (ok : Bool) (s : Option S)
      → ((cancels_inflight r.multitask_strategy ≡ true) ⊎ (inflight ≡ []))
      → Meets (
          cancel_inflight ops policy r.multitask_strategy now inflight
            (undo_unless ops policy ok r (record { registry = insert r m.registry; store = s })))
  unfolding undo_unless CreateSpec
  inserted_Meets false s free = unfold cancel_inflight in remove-insert m.registry h r fresh
  inserted_Meets true s (inl c) = cancelling_Meets s c
  inserted_Meets true s (inr idle) = elim (Bool-cases (cancels_inflight r.multitask_strategy)) [
    | inl c ↦ cancelling_Meets s c
    | inr c ↦ plain_Meets s c idle
  ]

  -- Whatever the store does: a run that is created is the only one in flight on its thread, the others
  -- that were are interrupted with the new run's strategy, and no other record changes. A conflict
  -- arises only under "reject" with a run in flight, and every failure leaves the registry as it was.
  pub create_or_reject-CreateSpec :
      CreateSpec now r m.registry
        (create_or_reject ops policy now r m).0
        (create_or_reject ops policy now r m).1.registry
  unfolding create_or_reject CreateSpec
  create_or_reject-CreateSpec = elim (Bool-cases (supported_strategy r.multitask_strategy)) [
    | inr no_support ↦ rw no_support refl
    | inl support ↦ elim (Bool-cases (r.multitask_strategy == "reject")) [
      | inr other ↦ rw (support, other) (inserted_Meets _ _ (inl (ground (arith, support, other))))
      | inl rejects ↦ elim (Bool-cases (length inflight == 0)) [
        | inl idle ↦ rw (support, rejects, idle) (inserted_Meets _ _ (inr (ground (arith, idle))))
        | inr busy ↦
            rw (support, rejects, busy)
              (
                (eq_iff r.multitask_strategy "reject").0 rejects,
                has_busy (ground (arith, busy)),
                refl,
              )
      ]
    ]
  ]
