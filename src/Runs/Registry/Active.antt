-- ===== src/Runs/Registry/Active.antt =====
-- Which records `create_or_reject` interrupts: those of its thread that are pending or running, and
-- no others.
use deer_seek_backend.Prelude.{
  ℕ, String, ◌≡◌, refl, ap, sym, ◌∙◌, Bool, false, ◌==◌, some, List, [], ◌∷◌, map, ◌&&◌, arith,
  eq_iff, string_eq, if◌then◌else◌, keep, contains, All, Option-cases, Bool-cases, inl, inr,
  Distinct, subst,
}
use deer_seek_backend.Dict.{Dict, keys, values, get, put}
use deer_seek_backend.Dict.Laws.{contains-keys, has_absent}
use deer_seek_backend.Runs.Status.{is_inflight}
use deer_seek_backend.Runs.Registry.{
  RunRecord, Registry, thread_records, modify, interrupt, interrupt_all, active,
}
use deer_seek_backend.Runs.Registry.Index.{
  IsIndexed, ids_of, ids-values, contains-ids_keep, thread_records-owned,
}
use deer_seek_backend.Runs.Registry.Rollback.{modify-IsIndexed, interrupt-Keeps}

module _ {J : Type 0} where
  -- The change of one record, as a change of every record.
  abbrev pub change_at : String → (RunRecord J → RunRecord J) → RunRecord J → RunRecord J
  change_at run_id f x = if x.run_id == run_id then f x else x

  abbrev pub change_in : List String → (RunRecord J → RunRecord J) → RunRecord J → RunRecord J
  change_in ids f x = if contains x.run_id ids then f x else x

  map_change_absent :
      (run_id : String) (f : RunRecord J → RunRecord J) (runs : Dict String (RunRecord J))
      → All (λ e. e.0 ≡ e.1.run_id) runs
      → contains run_id (keys runs) ≡ false
      → map (change_at run_id f) (values runs) ≡ values runs
  map_change_absent run_id f [] h n = refl
  map_change_absent run_id f ((i, x) ∷ runs) h n =
      ground
        (arith, h.0, map_change_absent run_id f runs h.1, eq_iff i run_id, eq_iff x.run_id run_id)

  values-put :
      (run_id : String) (f : RunRecord J → RunRecord J) (runs : Dict String (RunRecord J))
      (r : RunRecord J)
      → Distinct (keys runs)
      → All (λ e. e.0 ≡ e.1.run_id) runs
      → get runs run_id ≡ some r
      → values (put runs run_id (f r)) ≡ map (change_at run_id f) (values runs)
  unfolding put get
  values-put run_id f [] r d h found = cc
  values-put run_id f ((i, x) ∷ runs) r d h found = ground (
    arith,
    h.0,
    d.0,
    values-put run_id f runs r d.1 h.1,
    map_change_absent run_id f runs h.1,
    eq_iff i run_id,
    eq_iff x.run_id run_id,
  )

  pub values-modify :
      (run_id : String) (f : RunRecord J → RunRecord J) (g : Registry J)
      → IsIndexed g
      → values (modify f run_id g).runs ≡ map (change_at run_id f) (values g.runs)
  unfolding modify
  values-modify run_id f g h = elim (Option-cases (get g.runs run_id)) [
    | inl missing ↦
        rw (missing, modify)
          (sym (
            map_change_absent run_id f g.runs h.keyed
              (contains-keys g.runs run_id ∙ has_absent g.runs run_id missing)))
    | inr (r, found) ↦ rw (found, modify) (values-put run_id f g.runs r h.distinct h.keyed found)
  ]

  interrupt_idem :
      (action : String) (now : ℕ) (r : RunRecord J)
      → interrupt action now (interrupt action now r) ≡ interrupt action now r
  unfolding interrupt
  interrupt_idem action now r = ground arith

  map_change_both :
      (action : String) (now : ℕ) (i : String) (ids : List String) (rs : List (RunRecord J))
      → map (change_in ids (interrupt action now)) (map (change_at i (interrupt action now)) rs)
        ≡ map (change_in (i ∷ ids) (interrupt action now)) rs
  unfolding interrupt
  map_change_both action now i ids [] = refl
  map_change_both action now i ids (r ∷ rs) = ground (
    arith,
    map_change_both action now i ids rs,
    interrupt_idem action now r,
    eq_iff r.run_id i,
    eq_iff i r.run_id,
  )

  map_change_none :
      (f : RunRecord J → RunRecord J) (rs : List (RunRecord J)) → map (change_in [] f) rs ≡ rs
  map_change_none f [] = refl
  map_change_none f (r ∷ rs) = ap (◌∷◌ r) (map_change_none f rs)

  pub values-interrupt_all :
      (action : String) (now : ℕ) (rs : List (RunRecord J)) (g : Registry J)
      → IsIndexed g
      → values (interrupt_all action now rs g).runs
        ≡ map (change_in (ids_of rs) (interrupt action now)) (values g.runs)
  unfolding interrupt_all
  values-interrupt_all action now [] g h =
      sym (map_change_none (interrupt action now) (values g.runs))
  values-interrupt_all action now (r ∷ rs) g h =
      values-interrupt_all action now rs (modify (interrupt action now) r.run_id g)
        (modify-IsIndexed (interrupt action now) (interrupt-Keeps action now) r.run_id g h)
      ∙ ap (map (change_in (ids_of rs) (interrupt action now)))
          (values-modify r.run_id (interrupt action now) g h)
      ∙ map_change_both action now r.run_id (ids_of rs) (values g.runs)

  -- Membership among the ids of the kept records is the test, where ids are distinct.
  All-marked_weaken :
      (p : RunRecord J → Bool) (x : RunRecord J) (kept rs : List (RunRecord J))
      → contains x.run_id (ids_of rs) ≡ false
      → All (λ y. contains y.run_id (ids_of kept) ≡ p y) rs
      → All (λ y. contains y.run_id (x.run_id ∷ ids_of kept) ≡ p y) rs
  All-marked_weaken p x kept [] n h = tt
  All-marked_weaken p x kept (y ∷ rs) n h = ground (
    arith,
    h.0,
    All-marked_weaken p x kept rs,
    h.1,
    eq_iff x.run_id y.run_id,
    eq_iff y.run_id x.run_id,
  )

  pub marked :
      (p : RunRecord J → Bool) (rs : List (RunRecord J))
      → Distinct (ids_of rs)
      → All (λ x. contains x.run_id (ids_of (keep p rs)) ≡ p x) rs
  marked p [] d = tt
  marked p (r ∷ rs) d = elim (Bool-cases (p r)) [
    | inl kept ↦
        let e : keep p (r ∷ rs) ≡ r ∷ keep p rs = rw kept in
        subst (λ ks. All (λ x. contains x.run_id (ids_of ks) ≡ p x) (r ∷ rs)) (sym e)
          (
            ground (arith, eq_iff r.run_id r.run_id, kept),
            All-marked_weaken p r (keep p rs) rs d.0 (marked p rs d.1),
          )
    | inr left ↦
        let e : keep p (r ∷ rs) ≡ keep p rs = rw left in
        subst (λ ks. All (λ x. contains x.run_id (ids_of ks) ≡ p x) (r ∷ rs)) (sym e)
          (contains-ids_keep r.run_id p rs d.0 ∙ sym left, marked p rs d.1)
  ]

  pub map_marked :
      (p : RunRecord J → Bool) (ids : List String) (f : RunRecord J → RunRecord J)
      (rs : List (RunRecord J))
      → All (λ x. contains x.run_id ids ≡ p x) rs
      → map (change_in ids f) rs ≡ map (λ x. if p x then f x else x) rs
  map_marked p ids f [] h = refl
  map_marked p ids f (r ∷ rs) h = ground (arith, h.0, map_marked p ids f rs h.1)

  keep-keep :
      (p q : RunRecord J → Bool) (rs : List (RunRecord J))
      → keep p (keep q rs) ≡ keep (λ x. q x && p x) rs
  keep-keep p q [] = refl
  keep-keep p q (r ∷ rs) = ground (arith, keep-keep p q rs)

  -- A pending or running record of the thread.
  abbrev pub in_flight_on : String → RunRecord J → Bool
  in_flight_on thread x = x.thread_id == thread && is_inflight x.status

  -- The inflight list of `create_or_reject`, as a scan of all runs.
  pub active-scan :
      (g : Registry J) (thread : String)
      → IsIndexed g
      → active (thread_records g thread) ≡ keep (in_flight_on thread) (values g.runs)
  active-scan g thread h =
      rw (thread_records-owned g h thread)
        (keep-keep (λ x. is_inflight x.status) (λ x. x.thread_id == thread) (values g.runs))

  -- Interrupting the inflight runs of a thread changes those records and no others, and keeps the
  -- order of all.
  pub values_interrupted :
      (action thread : String) (now : ℕ) (g : Registry J)
      → IsIndexed g
      → values (interrupt_all action now (active (thread_records g thread)) g).runs
        ≡ map (λ x. if in_flight_on thread x then interrupt action now x else x) (values g.runs)
  values_interrupted action thread now g h =
      values-interrupt_all action now (active (thread_records g thread)) g h
      ∙ rw (active-scan g thread h) (
          map_marked (in_flight_on thread) _ (interrupt action now) (values g.runs) (
            marked (in_flight_on thread) (values g.runs)
              (rw (ids-values g.runs h.keyed) h.distinct)))
