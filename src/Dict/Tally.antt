-- ===== src/Dict/Tally.antt =====
-- How often a number occurs among the values of a dictionary, after its updates.
use deer_seek_backend.Prelude.{
  ℕ, ◌+◌, ◌≡◌, refl, Bool, false, not, some, List, [], ◌∷◌, ◌++◌, map, arith, Eq, ◌==◌, nat_eq,
  count, keep, Distinct, if◌then◌else◌, Option-cases, inl, inr,
}
use deer_seek_backend.Dict.{Dict, keys, get, has, put, pop, move_to_end}
use deer_seek_backend.Dict.Laws.{pop_absent, put_absent}

-- 1 for a number that is the same, else 0.
abbrev pub unit_at : ℕ → ℕ → ℕ
unit_at a b = if a == b then 1 else 0

pub count-append : (o : ℕ) (xs ys : List ℕ) → count o (xs ++ ys) ≡ count o xs + count o ys
count-append o [] ys = omega arith
count-append o (x ∷ xs) ys = ground (arith, count-append o xs ys)

pub count-keep {ℓ} :
    {A : Type ℓ} (f : A → ℕ) (p : A → Bool) (o : ℕ) (xs : List A)
    → count o (map f (keep p xs)) + count o (map f (keep (λ x. not (p x)) xs)) ≡ count o (map f xs)
count-keep f p o [] = refl
count-keep f p o (x ∷ xs) = ground (arith, count-keep f p o xs)

module _ {ℓ κ} {K : Type ℓ} {V : Type κ} (f : V → ℕ) where
  abbrev pub tally : Dict K V → ℕ → ℕ
  tally d o = count o (map (λ e. f e.1) d)

  pub tally-append : (d c : Dict K V) (o : ℕ) → tally (d ++ c) o ≡ tally d o + tally c o
  tally-append [] c o = omega arith
  tally-append (e ∷ d) c o = ground (arith, tally-append d c o)

module _ {ℓ κ} {K : Type ℓ} {V : Type κ} ⦃e : Eq K⦄ (f : V → ℕ) where
  pub tally-pop :
      (d : Dict K V) (k : K) (v : V) (o : ℕ)
      → Distinct (keys d)
      → get d k ≡ some v
      → tally f d o ≡ unit_at (f v) o + tally f (pop d k) o
  unfolding get pop
  tally-pop [] k v o h g = cc
  tally-pop ((i, w) ∷ d) k v o h g =
      ground (arith, tally-pop d k v o h.1, pop_absent d k, e.beq_iff i k)

  pub tally-put_new :
      (d : Dict K V) (k : K) (v : V) (o : ℕ)
      → has d k ≡ false
      → tally f (put d k v) o ≡ tally f d o + unit_at (f v) o
  tally-put_new d k v o h = rw (put_absent d k v h) (tally-append f d ((k, v) ∷ []) o)

  pub tally-move_to_end :
      (d : Dict K V) (k : K) (o : ℕ) → Distinct (keys d) → tally f (move_to_end d k) o ≡ tally f d o
  unfolding move_to_end
  tally-move_to_end d k o h = elim (Option-cases (get d k)) [
    | inl missing ↦ rw (missing, move_to_end)
    | inr (v, found) ↦
        rw (found, move_to_end)
          (omega (arith, tally-append f (pop d k) ((k, v) ∷ []) o, tally-pop d k v o h found))
  ]
