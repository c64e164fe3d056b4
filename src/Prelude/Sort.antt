-- ===== src/Prelude/Sort.antt =====
-- Python's `sorted(xs, key=key)` and `sorted(xs, key=key, reverse=True)`: both are stable.
use Prim.Native.Nat.{ℕ, zero, suc, ◌≤◌}
use mathlib.Core.Path.{◌≡◌, refl, ap, ◌∙◌}
use mathlib.Core.Bool.{Bool, ◌||◌}
use mathlib.Core.List.{List, [], ◌∷◌}
use mathlib.Core.List.{Perm}
use mathlib.Core.List.Perm
use native.Mathlib.Omega.{arith}
use deer_seek_backend.Prelude.Tests.{leb, if◌then◌else◌, Bool-cases}
use mathlib.Core.Logic.{inl, inr}
use deer_seek_backend.Prelude.Lists.{any, take, length, keep}

module _ {ℓ} {A : Type ℓ} where
  -- Before the first element that `before` says to.
  pub insert_before : (A → A → Bool) → A → List A → List A
  insert_before before x [] = x ∷ []
  insert_before before x (y ∷ ys) =
      let rest = insert_before before x ys in if before x y then x ∷ y ∷ ys else y ∷ rest

  pub sort_by : (A → A → Bool) → List A → List A
  unfolding insert_before
  sort_by before [] = []
  sort_by before (x ∷ xs) = insert_before before x (sort_by before xs)

  unfoldable pub sorted : (A → ℕ) → List A → List A
  unfolding sort_by
  sorted key = sort_by (λ x y. leb (key x) (key y))

  unfoldable pub sorted_reverse : (A → ℕ) → List A → List A
  unfolding sort_by
  sorted_reverse key = sort_by (λ x y. leb (key y) (key x))

  length-insert_before :
      (before : A → A → Bool) (x : A) (ys : List A)
      → length (insert_before before x ys) ≡ suc (length ys)
  unfolding insert_before
  length-insert_before before x [] = refl
  length-insert_before before x (y ∷ ys) = ground (arith, length-insert_before before x ys)

  length-sort_by : (before : A → A → Bool) (xs : List A) → length (sort_by before xs) ≡ length xs
  unfolding sort_by
  length-sort_by before [] = refl
  length-sort_by before (x ∷ xs) =
      length-insert_before before x (sort_by before xs) ∙ ap suc (length-sort_by before xs)

  insert_before-perm :
      (before : A → A → Bool) (x : A) (ys : List A) → Perm (insert_before before x ys) (x ∷ ys)
  unfolding insert_before
  insert_before-perm before x [] = Perm.refl (x ∷ [])
  insert_before-perm before x (y ∷ ys) = elim (Bool-cases (before x y)) [
    | inl here ↦ rw here (Perm.refl (x ∷ y ∷ ys))
    | inr on ↦ rw on (Perm.trans (Perm.cons y (insert_before-perm before x ys)) (Perm.swap x y ys))
  ]

  pub sort_by-perm : (before : A → A → Bool) (xs : List A) → Perm (sort_by before xs) xs
  unfolding sort_by
  sort_by-perm before [] = Perm.refl []
  sort_by-perm before (x ∷ xs) =
      Perm.trans (insert_before-perm before x (sort_by before xs))
        (Perm.cons x (sort_by-perm before xs))

  -- Each key is at most `n`, and the keys fall.
  abbrev pub Falling : (A → ℕ) → List A → Type 0
  Falling key [] = Unit
  Falling key (x ∷ []) = Unit
  Falling key (x ∷ y ∷ ys) = (key y ≤ key x) × Falling key (y ∷ ys)

module _ {ℓ} {A : Type ℓ} (p : A → Bool) (before : A → A → Bool) where
  any-insert_before : (x : A) (ys : List A) → any p (insert_before before x ys) ≡ (p x || any p ys)
  unfolding insert_before
  any-insert_before x [] = refl
  any-insert_before x (y ∷ ys) = ground (arith, any-insert_before x ys)

  any-sort_by : (xs : List A) → any p (sort_by before xs) ≡ any p xs
  unfolding sort_by
  any-sort_by [] = refl
  any-sort_by (x ∷ xs) = ground (arith, any-insert_before x (sort_by before xs), any-sort_by xs)

module _ {ℓ} {A : Type ℓ} (p : A → Bool) (before : A → A → Bool) where
  length-keep-insert_before :
      (x : A) (ys : List A) → length (keep p (insert_before before x ys)) ≡ length (keep p (x ∷ ys))
  unfolding insert_before
  length-keep-insert_before x [] = refl
  length-keep-insert_before x (y ∷ ys) = ground (arith, length-keep-insert_before x ys)

  length-keep-sort_by : (xs : List A) → length (keep p (sort_by before xs)) ≡ length (keep p xs)
  unfolding sort_by
  length-keep-sort_by [] = refl
  length-keep-sort_by (x ∷ xs) =
      ground (arith, length-keep-insert_before x (sort_by before xs), length-keep-sort_by xs)

module _ {ℓ} {A : Type ℓ} (key : A → ℕ) where
  pub length-keep-sorted_reverse :
      (p : A → Bool) (xs : List A) → length (keep p (sorted_reverse key xs)) ≡ length (keep p xs)
  unfolding sorted_reverse
  length-keep-sorted_reverse p = length-keep-sort_by p _

  pub any-sorted : (p : A → Bool) (xs : List A) → any p (sorted key xs) ≡ any p xs
  unfolding sorted
  any-sorted p = any-sort_by p _

  pub length-sorted : (xs : List A) → length (sorted key xs) ≡ length xs
  unfolding sorted
  length-sorted = length-sort_by _

  -- Every element is at most the head.
  abbrev Tops : A → List A → Type 0
  Tops x [] = Unit
  Tops x (y ∷ ys) = key y ≤ key x

  Falling-cons : (x : A) (ys : List A) → Tops x ys → Falling key ys → Falling key (x ∷ ys)
  Falling-cons x [] h f = tt
  Falling-cons x (y ∷ ys) h f = (h, f)

  Falling-tail : (x : A) (ys : List A) → Falling key (x ∷ ys) → Falling key ys
  Falling-tail x [] f = tt
  Falling-tail x (y ∷ ys) f = f.1

  abbrev later : A → A → Bool
  later x y = leb (key y) (key x)

  Tops-insert_before :
      (z x : A) (ys : List A) → key x ≤ key z → Tops z ys → Tops z (insert_before later x ys)
  unfolding insert_before
  Tops-insert_before z x [] h t = h
  Tops-insert_before z x (y ∷ ys) h t = ground arith

  insert_before-Falling :
      (x : A) (ys : List A) → Falling key ys → Falling key (insert_before later x ys)
  unfolding insert_before
  insert_before-Falling x [] f = tt
  insert_before-Falling x (y ∷ ys) f = elim (Bool-cases (later x y)) [
    | inl here ↦ rw here (ground (arith, here), f)
    | inr on ↦ rw on (
        Falling-cons y (insert_before later x ys)
          (Tops-insert_before y x ys (ground (arith, on)) (Falling-head y ys f))
          (insert_before-Falling x ys (Falling-tail y ys f)))
  ]
    where
      Falling-head : (y : A) (ys : List A) → Falling key (y ∷ ys) → Tops y ys
      Falling-head y [] f = tt
      Falling-head y (z ∷ ys) f = f.0

  pub sorted_reverse-Falling : (xs : List A) → Falling key (sorted_reverse key xs)
  unfolding sorted_reverse sort_by
  sorted_reverse-Falling [] = tt
  sorted_reverse-Falling (x ∷ xs) =
      insert_before-Falling x (sort_by later xs) (sorted_reverse-Falling xs)

  pub take-Falling : (n : ℕ) (xs : List A) → Falling key xs → Falling key (take n xs)
  take-Falling zero xs f = tt
  take-Falling (suc n) [] f = tt
  take-Falling (suc zero) (x ∷ xs) f = tt
  take-Falling (suc (suc n)) (x ∷ []) f = tt
  take-Falling (suc (suc n)) (x ∷ y ∷ ys) f = (f.0, take-Falling (suc n) (y ∷ ys) f.1)
