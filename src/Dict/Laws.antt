-- ===== src/Dict/Laws.antt =====
-- The laws of dictionaries: reads after writes, and how writes act on the keys.
use deer_seek_backend.Prelude.{
  suc, ◌≤◌, ◌≡◌, refl, inl, inr, true, false, Option, none, some, [], ◌∷◌, ◌++◌, ◌||◌, arith, Eq,
  ◌==◌, not, ◌&&◌, if◌then◌else◌, length, contains, Distinct, length-append, Option-cases,
  Bool-cases,
}
use deer_seek_backend.Dict.{Dict, keys, get, get_or, has, put, pop, move_to_end}

abbrev pub or_else {ℓ} : {A : Type ℓ} → Option A → Option A → Option A
or_else none o = o
or_else (some a) o = some a

module _ {ℓ κ} {K : Type ℓ} {V : Type κ} ⦃e : Eq K⦄ where
  pub get-put :
      (d : Dict K V) (k j : K) (v : V) → get (put d k v) j ≡ (if k == j then some v else get d j)
  unfolding get put
  get-put [] k j v = refl
  get-put ((i, w) ∷ m) k j v =
      ground (arith, e.beq_iff k j, e.beq_iff i k, e.beq_iff i j, get-put m k j v)

  pub get-pop : (d : Dict K V) (k j : K) → get (pop d k) j ≡ (if k == j then none else get d j)
  unfolding get pop
  get-pop [] k j = ground arith
  get-pop ((i, w) ∷ m) k j =
      ground (arith, e.beq_iff k j, e.beq_iff i k, e.beq_iff i j, get-pop m k j)

  pub put_absent : (d : Dict K V) (k : K) (v : V) → has d k ≡ false → put d k v ≡ d ++ (k, v) ∷ []
  unfolding put has get
  put_absent [] k v h = refl
  put_absent ((i, w) ∷ m) k v h = ground (arith, put_absent m k v)

  pub has-put : (d : Dict K V) (k j : K) (v : V) → has (put d k v) j ≡ (k == j || has d j)
  unfolding has
  has-put d k j v = ground (arith, get-put d k j v)

  pub get_or-put :
      (d : Dict K V) (k j : K) (v w : V)
      → get_or (put d k v) j w ≡ (if k == j then v else get_or d j w)
  unfolding get_or
  get_or-put d k j v w = ground (arith, get-put d k j v)

  pub get_or-pop :
      (d : Dict K V) (k j : K) (w : V) → get_or (pop d k) j w ≡ (if k == j then w else get_or d j w)
  unfolding get_or
  get_or-pop d k j w = ground (arith, get-pop d k j)

  pub get_or_absent : (d : Dict K V) (k : K) (w : V) → has d k ≡ false → get_or d k w ≡ w
  unfolding get_or has
  get_or_absent d k w h = ground arith

  pub has-pop : (d : Dict K V) (k j : K) → has (pop d k) j ≡ (not (k == j) && has d j)
  unfolding has
  has-pop d k j = ground (arith, get-pop d k j)

  pub has-pop_self : (d : Dict K V) (k : K) → has (pop d k) k ≡ false
  has-pop_self d k = ground (arith, has-pop d k k, e.beq_iff k k)

  pub has_absent : (d : Dict K V) (k : K) → get d k ≡ none → has d k ≡ false
  unfolding has
  has_absent d k h = ground arith

  pub get-put_new :
      (d : Dict K V) (k j : K) (v w : V)
      → has d k ≡ false
      → get d j ≡ some w
      → get (put d k v) j ≡ some w
  unfolding has
  get-put_new d k j v w new found = elim (Bool-cases (k == j)) [
    | inl same ↦
        let old : get d k ≡ some w = rw ((e.beq_iff k j).0 same) found in
        absurd (ground (arith, new, old))
    | inr other ↦ rw (get-put d k j v, other) found
  ]

  pub get-append : (d c : Dict K V) (k : K) → get (d ++ c) k ≡ or_else (get d k) (get c k)
  unfolding get
  get-append [] c k = refl
  get-append ((i, w) ∷ m) c k = ground (arith, get-append m c k)

  pub get-move_to_end : (d : Dict K V) (k j : K) → get (move_to_end d k) j ≡ get d j
  unfolding get has move_to_end
  get-move_to_end d k j = elim (Option-cases (get d k)) [
    | inl missing ↦ rw (missing, move_to_end)
    | inr (v, found) ↦
        rw (found, move_to_end)
          (ground (arith, get-append (pop d k) ((k, v) ∷ []) j, get-pop d k j, e.beq_iff k j))
  ]

  pub has-move_to_end : (d : Dict K V) (k j : K) → has (move_to_end d k) j ≡ has d j
  unfolding has
  has-move_to_end d k j = ground (arith, get-move_to_end d k j)

  pub contains-keys : (d : Dict K V) (k : K) → contains k (keys d) ≡ has d k
  unfolding get has
  contains-keys [] k = refl
  contains-keys ((i, w) ∷ m) k = ground (arith, contains-keys m k)

  pub contains-put :
      (d : Dict K V) (k j : K) (v : V)
      → contains j (keys (put d k v)) ≡ (k == j || contains j (keys d))
  unfolding has
  contains-put d k j v =
      ground (arith, contains-keys (put d k v) j, contains-keys d j, get-put d k j v)

  pub contains-pop :
      (d : Dict K V) (k j : K)
      → contains j (keys (pop d k)) ≡ (if k == j then false else contains j (keys d))
  unfolding has
  contains-pop d k j = ground (arith, contains-keys (pop d k) j, contains-keys d j, get-pop d k j)

  pub put-Distinct :
      (d : Dict K V) (k : K) (v : V) → Distinct (keys d) → Distinct (keys (put d k v))
  unfolding put
  put-Distinct [] k v h = (refl, tt)
  put-Distinct ((i, w) ∷ m) k v h =
      ground (arith, put-Distinct m k v h.1, contains-put m k i v, e.beq_iff k i, e.beq_iff i k)

  pub pop-Distinct : (d : Dict K V) (k : K) → Distinct (keys d) → Distinct (keys (pop d k))
  unfolding pop
  pop-Distinct [] k h = tt
  pop-Distinct ((i, w) ∷ m) k h = ground (arith, pop-Distinct m k h.1, contains-pop m k i)

  pub contains-keys_append :
      (d c : Dict K V) (k : K)
      → contains k (keys (d ++ c)) ≡ (contains k (keys d) || contains k (keys c))
  contains-keys_append [] c k = refl
  contains-keys_append ((i, w) ∷ m) c k = ground (arith, contains-keys_append m c k)

  pub Distinct-keys_snoc :
      (d : Dict K V) (k : K) (v : V)
      → Distinct (keys d)
      → contains k (keys d) ≡ false
      → Distinct (keys (d ++ (k, v) ∷ []))
  Distinct-keys_snoc [] k v h n = (refl, tt)
  Distinct-keys_snoc ((i, w) ∷ m) k v h n = ground (
    arith,
    Distinct-keys_snoc m k v h.1,
    contains-keys_append m ((k, v) ∷ []) i,
    e.beq_iff k i,
    e.beq_iff i k,
  )

  pub move_to_end-Distinct :
      (d : Dict K V) (k : K) → Distinct (keys d) → Distinct (keys (move_to_end d k))
  unfolding move_to_end
  move_to_end-Distinct d k h = elim (Option-cases (get d k)) [
    | inl missing ↦ rw (missing, move_to_end) h
    | inr (v, found) ↦
        rw (found, move_to_end)
          (Distinct-keys_snoc (pop d k) k v (pop-Distinct d k h)
            (ground (arith, contains-pop d k k, e.beq_iff k k)))
  ]

  -- A write adds an entry exactly when the key is new.
  pub length-put :
      (d : Dict K V) (k : K) (v : V)
      → length (put d k v) ≡ (if has d k then length d else suc (length d))
  unfolding put has get
  length-put [] k v = refl
  length-put ((i, w) ∷ m) k v = ground (arith, length-put m k v)

  pub length-pop-le : (d : Dict K V) (k : K) → length (pop d k) ≤ length d
  unfolding pop
  length-pop-le [] k = omega arith
  length-pop-le ((i, w) ∷ m) k = ground (arith, length-pop-le m k)

  pub pop_absent : (d : Dict K V) (k : K) → contains k (keys d) ≡ false → pop d k ≡ d
  unfolding pop
  pop_absent [] k h = refl
  pop_absent ((i, w) ∷ m) k h = ground (arith, pop_absent m k)

  -- With distinct keys `pop` of a key that is there drops one entry.
  pub length-pop :
      (d : Dict K V) (k : K)
      → Distinct (keys d)
      → contains k (keys d) ≡ true
      → suc (length (pop d k)) ≡ length d
  unfolding pop
  length-pop [] k h c = cc
  length-pop ((i, w) ∷ m) k h c = ground (arith, length-pop m k h.1, pop_absent m k, e.beq_iff i k)

  pub length-move_to_end :
      (d : Dict K V) (k : K) → Distinct (keys d) → length (move_to_end d k) ≡ length d
  unfolding move_to_end
  length-move_to_end d k h = elim (Option-cases (get d k)) [
    | inl missing ↦ rw (missing, move_to_end)
    | inr (v, found) ↦
        rw (found, move_to_end)
          (unfold has in
            ground
              (arith, length-append (pop d k) ((k, v) ∷ []), length-pop d k h, contains-keys d k))
  ]

module _ {ℓ κ} {K : Type ℓ} {V : Type κ} ⦃e : Eq K⦄ where
  pub put-put : (d : Dict K V) (k : K) (v w : V) → put (put d k v) k w ≡ put d k w
  unfolding put
  put-put [] k v w = ground (arith, e.beq_iff k k)
  put-put ((i, x) ∷ m) k v w = ground (arith, put-put m k v w)

  pub put-get : (d : Dict K V) (k : K) (v : V) → get d k ≡ some v → put d k v ≡ d
  unfolding put get
  put-get [] k v h = cc
  put-get ((i, x) ∷ m) k v h = ground (arith, put-get m k v)

  pub pop-put_absent : (d : Dict K V) (k : K) (v : V) → has d k ≡ false → pop (put d k v) k ≡ d
  unfolding put pop has get
  pop-put_absent [] k v h = ground (arith, e.beq_iff k k)
  pop-put_absent ((i, x) ∷ m) k v h = ground (arith, pop-put_absent m k v)

pub ruleset dict_laws = (get-put, get-pop, get-move_to_end, has-put, get_or-put, get_or-pop)
