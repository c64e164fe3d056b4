-- ===== src/Runs/Registry/Rollback.antt =====
-- Changes that are undone, and changes of records in place.
use deer_seek_backend.Prelude.{
  ℕ, String, ◌≡◌, refl, sym, ◌∙◌, false, some, List, [], ◌∷◌, ◌++◌, arith, eq_iff, string_eq,
  contains, All, Option-cases, inl, inr,
}
use deer_seek_backend.Dict.{Dict, get, get_or, has, put}
use deer_seek_backend.Dict.Laws.{
  has_absent, get-put, put-put, put-get, pop-put_absent, put-Distinct,
}
use deer_seek_backend.Runs.Registry.{
  RunRecord, Registry, drop_id, unindex_run, insert, remove, modify, interrupt, interrupt_all,
}
use deer_seek_backend.Runs.Registry.Index.{IsIndexed, owned, ids_of, absent_ids}

drop_id-absent : (i : String) (ids : List String) → contains i ids ≡ false → drop_id i ids ≡ ids
drop_id-absent i [] h = refl
drop_id-absent i (j ∷ ids) h = ground (arith, drop_id-absent i ids)

drop_id-add_id :
    (i : String) (ids : List String) → contains i ids ≡ false → drop_id i (ids ++ i ∷ []) ≡ ids
drop_id-add_id i [] h = ground (arith, eq_iff i i)
drop_id-add_id i (j ∷ ids) h = ground (arith, drop_id-add_id i ids)

module _ {J : Type 0} (g : Registry J) (h : IsIndexed g) (r : RunRecord J)
    (fresh : has g.runs r.run_id ≡ false) where
  -- A record that is inserted and removed again leaves the registry exactly as it was.
  pub remove-insert : remove r.run_id r.thread_id (insert r g) ≡ g
  unfolding remove insert unindex_run get_or
  remove-insert = elim (Option-cases (get g.by_thread r.thread_id)) [
    | inl missing ↦ ground (
      arith,
      missing,
      pop-put_absent g.runs r.run_id r,
      pop-put_absent g.by_thread r.thread_id (r.run_id ∷ []),
      has_absent g.by_thread r.thread_id missing,
      get-put g.by_thread r.thread_id r.thread_id (r.run_id ∷ []),
      eq_iff r.thread_id r.thread_id,
      eq_iff r.run_id r.run_id,
    )
    | inr ([], found) ↦ absurd (h.no_empty r.thread_id found)
    | inr (i ∷ ids, found) ↦ ground (
      arith,
      found,
      absent_ids g h r fresh r.thread_id,
      pop-put_absent g.runs r.run_id r,
      put-put g.by_thread r.thread_id (i ∷ ids ++ r.run_id ∷ []) (i ∷ ids),
      put-get g.by_thread r.thread_id (i ∷ ids) found,
      get-put g.by_thread r.thread_id r.thread_id (i ∷ ids ++ r.run_id ∷ []),
      drop_id-add_id r.run_id (i ∷ ids),
      eq_iff r.thread_id r.thread_id,
    )
  ]

-- A change of a record that keeps its id and its thread.
abbrev pub Keeps : {J : Type 0} → (RunRecord J → RunRecord J) → Type 0
Keeps {J} f = (r : RunRecord J) → ((f r).run_id ≡ r.run_id) × ((f r).thread_id ≡ r.thread_id)

module _ {J : Type 0} (f : RunRecord J → RunRecord J) (keeps : Keeps f) where
  ids_owned-put :
      (run_id thread : String) (runs : Dict String (RunRecord J)) (r : RunRecord J)
      → get runs run_id ≡ some r
      → ids_of (owned thread (put runs run_id (f r))) ≡ ids_of (owned thread runs)
  unfolding put get
  ids_owned-put run_id thread [] r found = cc
  ids_owned-put run_id thread ((i, x) ∷ runs) r found =
      ground (arith, (keeps r).0, (keeps r).1, ids_owned-put run_id thread runs r)

  All-put :
      (run_id : String) (runs : Dict String (RunRecord J)) (r : RunRecord J)
      → get runs run_id ≡ some r
      → All (λ e. e.0 ≡ e.1.run_id) runs
      → All (λ e. e.0 ≡ e.1.run_id) (put runs run_id (f r))
  unfolding put get
  All-put run_id [] r found h = cc
  All-put run_id ((i, x) ∷ runs) r found h =
      ground (arith, h.0, (keeps r).0, All-put run_id runs r, h.1)

  pub modify-IsIndexed :
      (run_id : String) (g : Registry J) → IsIndexed g → IsIndexed (modify f run_id g)
  unfolding modify
  modify-IsIndexed run_id g h = elim (Option-cases (get g.runs run_id)) [
    | inl missing ↦ rw (missing, modify) h
    | inr (r, found) ↦
        rw (found, modify)
          (record {
            distinct = put-Distinct g.runs run_id (f r) h.distinct;
            keyed = All-put run_id g.runs r found h.keyed;
            indexed = λ thread. h.indexed thread ∙ sym (ids_owned-put run_id thread g.runs r found);
            no_empty = h.no_empty;
          })
  ]

pub interrupt-Keeps :
    {J : Type 0} (action : String) (now : ℕ) → Keeps {J = J} (interrupt action now)
unfolding interrupt
interrupt-Keeps action now r = (refl, refl)

pub interrupt_all-IsIndexed :
    {J : Type 0} (action : String) (now : ℕ) (rs : List (RunRecord J)) (g : Registry J)
    → IsIndexed g
    → IsIndexed (interrupt_all action now rs g)
unfolding interrupt_all
interrupt_all-IsIndexed action now [] g h = h
interrupt_all-IsIndexed action now (r ∷ rs) g h =
    interrupt_all-IsIndexed action now rs (modify (interrupt action now) r.run_id g)
      (modify-IsIndexed (interrupt action now) (interrupt-Keeps action now) r.run_id g h)
