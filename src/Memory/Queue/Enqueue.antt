-- ===== src/Memory/Queue/Enqueue.antt =====
-- The queue after `_enqueue_locked` (queue.py).
use deer_seek_backend.Prelude.{
  ◌≡◌, refl, arith, false, not, ◌&&◌, ◌||◌, none, some, List, [], ◌∷◌, ◌++◌, ◌==◌, Eq, string_eq,
  option_eq, pair_eq, keep, map, contains, Distinct, if◌then◌else◌,
}
use deer_seek_backend.Memory.Queue.{Context, find, merged, enqueue}

abbrev pub keys_of : {K M : Type 0} → List (Context K M) → List K
keys_of = map (λ c. c.key)

module _ {K M : Type 0} ⦃e : Eq K⦄ where
  find-append :
      (k : K) (cs ds : List (Context K M))
      → find k (cs ++ ds) ≡ (if contains k (keys_of cs) then find k cs else find k ds)
  unfolding find
  find-append k [] ds = refl
  find-append k (c ∷ cs) ds = ground (arith, find-append k cs ds)

  find-keep :
      (a k : K) (cs : List (Context K M))
      → find k (keep (λ d. not (d.key == a)) cs) ≡ (if a == k then none else find k cs)
  unfolding find
  find-keep a k [] = ground arith
  find-keep a k (c ∷ cs) =
      ground (arith, find-keep a k cs, e.beq_iff c.key a, e.beq_iff c.key k, e.beq_iff a k)

  contains-keep_key :
      (a k : K) (cs : List (Context K M))
      → contains k (keys_of (keep (λ d. not (d.key == a)) cs))
        ≡ (not (a == k) && contains k (keys_of cs))
  contains-keep_key a k [] = ground arith
  contains-keep_key a k (c ∷ cs) =
      ground (arith, contains-keep_key a k cs, e.beq_iff c.key a, e.beq_iff c.key k, e.beq_iff a k)

  find_absent :
      (k : K) (cs : List (Context K M)) → contains k (keys_of cs) ≡ false → find k cs ≡ none
  unfolding find
  find_absent k [] h = refl
  find_absent k (c ∷ cs) h = ground (arith, find_absent k cs, e.beq_iff c.key k, e.beq_iff k c.key)

  pub find-enqueue :
      (k : K) (c : Context K M) (cs : List (Context K M))
      → find k (enqueue c cs) ≡ (if c.key == k then some (merged c (find c.key cs)) else find k cs)
  unfolding enqueue find merged
  find-enqueue k c cs = ground (
    arith,
    find-append k (keep (λ d. not (d.key == c.key)) cs) (merged c (find c.key cs) ∷ []),
    find-keep c.key k cs,
    contains-keep_key c.key k cs,
    find_absent k cs,
  )

  keep_key-Distinct :
      (a : K) (cs : List (Context K M))
      → Distinct (keys_of cs)
      → Distinct (keys_of (keep (λ d. not (d.key == a)) cs))
  keep_key-Distinct a [] h = tt
  keep_key-Distinct a (c ∷ cs) h =
      ground (arith, keep_key-Distinct a cs h.1, contains-keep_key a c.key cs)

  contains-keys_snoc :
      (k : K) (c : Context K M) (cs : List (Context K M))
      → contains k (keys_of (cs ++ c ∷ [])) ≡ (contains k (keys_of cs) || k == c.key)
  contains-keys_snoc k c [] = ground (arith, e.beq_iff c.key k, e.beq_iff k c.key)
  contains-keys_snoc k c (d ∷ cs) = ground (arith, contains-keys_snoc k c cs)

  snoc-Distinct :
      (c : Context K M) (cs : List (Context K M))
      → Distinct (keys_of cs)
      → contains c.key (keys_of cs) ≡ false
      → Distinct (keys_of (cs ++ c ∷ []))
  snoc-Distinct c [] h n = (refl, tt)
  snoc-Distinct c (d ∷ cs) h n = ground (
    arith,
    snoc-Distinct c cs h.1,
    contains-keys_snoc d.key c cs,
    e.beq_iff d.key c.key,
    e.beq_iff c.key d.key,
  )

  pub enqueue-Distinct :
      (c : Context K M) (cs : List (Context K M))
      → Distinct (keys_of cs)
      → Distinct (keys_of (enqueue c cs))
  unfolding enqueue merged
  enqueue-Distinct c cs h =
      snoc-Distinct (merged c (find c.key cs)) (keep (λ d. not (d.key == c.key)) cs)
        (keep_key-Distinct c.key cs h)
        (ground (arith, contains-keep_key c.key c.key cs, e.beq_iff c.key c.key))
