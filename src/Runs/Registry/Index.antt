-- ===== src/Runs/Registry/Index.antt =====
-- The thread index agrees with `_runs`, under every change that the manager makes.
use deer_seek_backend.Prelude.{
  String, ◌≡◌, ◌≢◌, refl, ap, Bool, false, ◌==◌, some, List, [], ◌∷◌, ◌++◌, map, arith, eq_iff,
  string_eq, if◌then◌else◌, keep, keep-append, contains, Distinct, All, All-keep, All-append,
  Option-cases, inl, inr, append-nil,
}
use deer_seek_backend.Dict.{Dict, keys, values, get, get_or, has, put, pop}
use deer_seek_backend.Dict.Laws.{
  get-put, get-pop, get_or-put, put_absent, pop_absent, put-Distinct, pop-Distinct, contains-keys,
}
use deer_seek_backend.Runs.Registry.{
  RunRecord, Registry, bucket, add_id, drop_id, unindex_run, lookup_all, thread_records, insert,
  remove,
}

module _ {J : Type 0} where
  -- The records of a thread, by a scan of all runs.
  abbrev pub owned : String → Dict String (RunRecord J) → List (RunRecord J)
  owned thread runs = keep (λ r. r.thread_id == thread) (values runs)

  abbrev pub ids_of : List (RunRecord J) → List String
  ids_of = map (λ r. r.run_id)

  pub record IsIndexed (g : Registry J) : Type 0 where
    pub distinct : Distinct (keys g.runs)
    pub keyed : All (λ e. e.0 ≡ e.1.run_id) g.runs
    pub indexed : (thread : String) → bucket g thread ≡ ids_of (owned thread g.runs)
    pub no_empty : (thread : String) → get g.by_thread thread ≢ some []

  lookup_all-ids :
      (runs : Dict String (RunRecord J)) (rs : List (RunRecord J))
      → All (λ r. get runs r.run_id ≡ some r) rs
      → lookup_all runs (ids_of rs) ≡ rs
  unfolding lookup_all
  lookup_all-ids runs [] h = refl
  lookup_all-ids runs (r ∷ rs) h = ground (arith, h.0, lookup_all-ids runs rs h.1)

  All-get_weaken :
      (i : String) (r : RunRecord J) (runs : Dict String (RunRecord J)) (rs : List (RunRecord J))
      → contains i (ids_of rs) ≡ false
      → All (λ x. get runs x.run_id ≡ some x) rs
      → All (λ x. get ((i, r) ∷ runs) x.run_id ≡ some x) rs
  unfolding get
  All-get_weaken i r runs [] n h = tt
  All-get_weaken i r runs (x ∷ rs) n h =
      ground (arith, h.0, eq_iff i x.run_id, eq_iff x.run_id i, All-get_weaken i r runs rs)

  pub ids-values :
      (runs : Dict String (RunRecord J))
      → All (λ e. e.0 ≡ e.1.run_id) runs
      → ids_of (values runs) ≡ keys runs
  ids-values [] h = refl
  ids-values (e ∷ runs) h = ground (arith, h.0, ids-values runs h.1)

  get-values :
      (runs : Dict String (RunRecord J))
      → Distinct (keys runs)
      → All (λ e. e.0 ≡ e.1.run_id) runs
      → All (λ r. get runs r.run_id ≡ some r) (values runs)
  unfolding get
  get-values [] d h = tt
  get-values ((i, r) ∷ runs) d h = (
    ground (arith, h.0, eq_iff i r.run_id),
    All-get_weaken i r runs (values runs) (rw (ids-values runs h.1) d.0) (get-values runs d.1 h.1),
  )

module _ {J : Type 0} (g : Registry J) (h : IsIndexed g) where
  -- `_thread_records_locked` finds by the index what a scan of all runs would find, in the same order.
  pub thread_records-owned : (thread : String) → thread_records g thread ≡ owned thread g.runs
  unfolding thread_records
  thread_records-owned thread = rw (h.indexed thread) (
      lookup_all-ids g.runs (owned thread g.runs) (
        All-keep (λ r. get g.runs r.run_id ≡ some r) (λ r. r.thread_id == thread) (values g.runs)
          (get-values g.runs h.distinct h.keyed)))

pub contains-ids_keep :
    {J : Type 0} (i : String) (p : RunRecord J → Bool) (rs : List (RunRecord J))
    → contains i (ids_of rs) ≡ false
    → contains i (ids_of (keep p rs)) ≡ false
contains-ids_keep i p [] h = refl
contains-ids_keep i p (r ∷ rs) h = ground (arith, contains-ids_keep i p rs)

pub values-append :
    {J : Type 0} (a b : Dict String (RunRecord J)) → values (a ++ b) ≡ values a ++ values b
values-append [] b = refl
values-append (e ∷ a) b = ap (◌∷◌ e.1) (values-append a b)

ids-append : {J : Type 0} (a b : List (RunRecord J)) → ids_of (a ++ b) ≡ ids_of a ++ ids_of b
ids-append [] b = refl
ids-append (r ∷ a) b = ap (◌∷◌ r.run_id) (ids-append a b)

snoc-ne-nil : {A : Type 0} (xs : List A) (x : A) → xs ++ x ∷ [] ≢ []
snoc-ne-nil [] x e = cc
snoc-ne-nil (y ∷ xs) x e = cc

module _ {J : Type 0} (g : Registry J) (h : IsIndexed g) (r : RunRecord J)
    (fresh : has g.runs r.run_id ≡ false) where
  pub absent_ids : (thread : String) → contains r.run_id (bucket g thread) ≡ false
  absent_ids thread = rw (h.indexed thread) (
      contains-ids_keep r.run_id (λ x. x.thread_id == thread) (values g.runs)
        (rw (ids-values g.runs h.keyed, contains-keys g.runs r.run_id) fresh))

  owned-insert :
      (thread : String)
      → ids_of (owned thread (put g.runs r.run_id r)) ≡ (
          if r.thread_id == thread
          then ids_of (owned thread g.runs) ++ r.run_id ∷ []
          else ids_of (owned thread g.runs))
  owned-insert thread =
      rw
        (
          put_absent g.runs r.run_id r fresh,
          values-append g.runs ((r.run_id, r) ∷ []),
          keep-append (λ x. x.thread_id == thread) (values g.runs) (r ∷ []),
          ids-append (owned thread g.runs) (owned thread ((r.run_id, r) ∷ [])),
        )
        (ground (arith, append-nil (ids_of (owned thread g.runs))))

  -- A record with a new id is indexed in its thread, at the end.
  pub insert-IsIndexed : IsIndexed (insert r g)
  unfolding insert
  insert-IsIndexed = record {
    distinct = put-Distinct g.runs r.run_id r h.distinct;
    keyed =
        rw (put_absent g.runs r.run_id r fresh)
          (All-append (λ e. e.0 ≡ e.1.run_id) g.runs ((r.run_id, r) ∷ []) h.keyed (refl, tt));
    indexed = λ thread. ground (
      arith,
      owned-insert thread,
      get_or-put g.by_thread r.thread_id thread (add_id r.run_id (bucket g r.thread_id)) [],
      absent_ids r.thread_id,
      h.indexed thread,
      h.indexed r.thread_id,
      eq_iff r.thread_id thread,
    );
    no_empty = λ thread e. ground (
      arith,
      get-put g.by_thread r.thread_id thread (add_id r.run_id (bucket g r.thread_id)),
      absent_ids r.thread_id,
      h.no_empty thread,
      snoc-ne-nil (bucket g r.thread_id) r.run_id,
    );
  }

module _ {J : Type 0} (run_id : String) where
  ids_owned-pop :
      (thread : String) (runs : Dict String (RunRecord J))
      → All (λ e. e.0 ≡ e.1.run_id) runs
      → ids_of (owned thread (pop runs run_id)) ≡ drop_id run_id (ids_of (owned thread runs))
  unfolding pop
  ids_owned-pop thread [] h = refl
  ids_owned-pop thread ((i, r) ∷ runs) h =
      ground (arith, h.0, ids_owned-pop thread runs h.1, eq_iff i run_id, eq_iff r.run_id run_id)

  owned-pop_ne :
      (thread : String) (runs : Dict String (RunRecord J)) (r : RunRecord J)
      → Distinct (keys runs)
      → get runs run_id ≡ some r
      → (r.thread_id == thread) ≡ false
      → owned thread (pop runs run_id) ≡ owned thread runs
  unfolding pop get
  owned-pop_ne thread [] r d g n = refl
  owned-pop_ne thread ((i, x) ∷ runs) r d g n =
      ground
        (arith, d.0, owned-pop_ne thread runs r d.1, pop_absent runs run_id, eq_iff i run_id, n)

  All-pop :
      (runs : Dict String (RunRecord J))
      → All (λ e. e.0 ≡ e.1.run_id) runs
      → All (λ e. e.0 ≡ e.1.run_id) (pop runs run_id)
  unfolding pop
  All-pop [] h = tt
  All-pop ((i, r) ∷ runs) h = ground (arith, h.0, All-pop runs h.1)

module _ {J : Type 0} (run_id thread : String) (g : Registry J) where
  bucket-unindex_run :
      (t : String)
      → bucket (unindex_run run_id thread g) t
        ≡ (if thread == t then drop_id run_id (bucket g thread) else bucket g t)
  unfolding unindex_run get_or
  bucket-unindex_run t = elim (Option-cases (get g.by_thread thread)) [
    | inl missing ↦ rw (missing, unindex_run) (ground (arith, missing, eq_iff thread t))
    | inr (ids, found) ↦ ground (
      arith,
      found,
      get-pop g.by_thread thread t,
      get-put g.by_thread thread t (drop_id run_id ids),
      eq_iff thread t,
    )
  ]

  no_empty-unindex_run :
      (t : String)
      → get g.by_thread t ≢ some []
      → get (unindex_run run_id thread g).by_thread t ≢ some []
  unfolding unindex_run
  no_empty-unindex_run t n e = elim (Option-cases (get g.by_thread thread)) [
    | inl missing ↦ ground (arith, missing, n)
    | inr (ids, found) ↦ ground (
      arith,
      found,
      n,
      get-pop g.by_thread thread t,
      get-put g.by_thread thread t (drop_id run_id ids),
    )
  ]

  runs-unindex_run : (unindex_run run_id thread g).runs ≡ g.runs
  unfolding unindex_run
  runs-unindex_run = ground arith

module _ {J : Type 0} (g : Registry J) (h : IsIndexed g) (run_id : String) (r : RunRecord J)
    (found : get g.runs run_id ≡ some r) where
  popped : Registry J
  popped = record g { runs = pop g.runs run_id }

  -- Removing a run with its own thread keeps the index in step.
  pub remove-IsIndexed : IsIndexed (remove run_id r.thread_id g)
  unfolding remove popped
  remove-IsIndexed =
      let same = runs-unindex_run run_id r.thread_id popped in
      record {
        distinct = rw same (pop-Distinct g.runs run_id h.distinct);
        keyed = rw same (All-pop run_id g.runs h.keyed);
        indexed = λ thread.
            rw (same, bucket-unindex_run run_id r.thread_id popped thread)
              (ground (
                arith,
                h.indexed thread,
                h.indexed r.thread_id,
                ids_owned-pop run_id thread g.runs h.keyed,
                owned-pop_ne run_id thread g.runs r h.distinct found,
                eq_iff r.thread_id thread,
              ));
        no_empty =
            λ thread. no_empty-unindex_run run_id r.thread_id popped thread (h.no_empty thread);
      }
