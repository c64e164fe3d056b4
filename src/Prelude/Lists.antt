-- ===== src/Prelude/Lists.antt =====
-- Lists measured by native numbers, under the library's names, and Boolean tests over lists.
use Prim.Native.Nat.{ℕ, zero, suc, ◌+◌, ◌-◌, ◌≤◌, ◌<◌, min}
use mathlib.Core.Path.{◌≡◌, refl}
use mathlib.Core.Logic.{◌≢◌}
use mathlib.Core.Bool.{Bool, true, false, not, ◌||◌, ◌&&◌}
use mathlib.Core.List.{List, [], ◌∷◌, ◌++◌, map}
use mathlib.Core.Option.{Option, none, some}
use native.Mathlib.Omega.{arith}
use deer_seek_backend.Prelude.Tests.{if◌then◌else◌}
use deer_seek_backend.Prelude.Classes.{Eq, ◌==◌}

module _ {ℓ} {A : Type ℓ} where
  abbrev pub length : List A → ℕ
  length [] = 0
  length (x ∷ xs) = suc (length xs)

  abbrev pub get_elem? : List A → ℕ → Option A
  get_elem? [] i = none
  get_elem? (x ∷ xs) zero = some x
  get_elem? (x ∷ xs) (suc i) = get_elem? xs i

  abbrev pub take : ℕ → List A → List A
  take zero xs = []
  take (suc n) [] = []
  take (suc n) (x ∷ xs) = x ∷ take n xs

  abbrev pub drop : ℕ → List A → List A
  drop zero xs = xs
  drop (suc n) [] = []
  drop (suc n) (x ∷ xs) = drop n xs

  -- `xs[-n:]` for 0 < n
  abbrev pub take_last : ℕ → List A → List A
  take_last n xs = drop (length xs - n) xs

  -- `[x for x in xs if p(x)]`
  abbrev pub keep : (A → Bool) → List A → List A
  keep p [] = []
  keep p (x ∷ xs) = let rest = keep p xs in if p x then x ∷ rest else rest

  -- `any(p(x) for x in xs)`
  abbrev pub any : (A → Bool) → List A → Bool
  any p [] = false
  any p (x ∷ xs) = p x || any p xs

  abbrev pub All {κ} : (A → Type κ) → List A → Type κ
  All P [] = Unit
  All P (x ∷ xs) = P x × All P xs

module _ {ℓ} {A : Type ℓ} where
  pub length-append : (xs ys : List A) → length (xs ++ ys) ≡ length xs + length ys
  length-append [] ys = omega arith
  length-append (x ∷ xs) ys = omega (arith, length-append xs ys)

  pub length-take : (n : ℕ) (xs : List A) → length (take n xs) ≡ min n (length xs)
  length-take zero xs = omega arith
  length-take (suc n) [] = omega arith
  length-take (suc n) (x ∷ xs) = omega (arith, length-take n xs)

  pub length-drop : (n : ℕ) (xs : List A) → length (drop n xs) ≡ length xs - n
  length-drop zero xs = omega arith
  length-drop (suc n) [] = omega arith
  length-drop (suc n) (x ∷ xs) = omega (arith, length-drop n xs)

  pub take-append-drop : (n : ℕ) (xs : List A) → take n xs ++ drop n xs ≡ xs
  take-append-drop zero xs = refl
  take-append-drop (suc n) [] = refl
  take-append-drop (suc n) (x ∷ xs) = rw (take-append-drop n xs)

  pub length-keep-le : (p : A → Bool) (xs : List A) → length (keep p xs) ≤ length xs
  length-keep-le p [] = omega arith
  length-keep-le p (x ∷ xs) = ground (arith, length-keep-le p xs)

  pub keep-append : (p : A → Bool) (xs ys : List A) → keep p (xs ++ ys) ≡ keep p xs ++ keep p ys
  keep-append p [] ys = refl
  keep-append p (x ∷ xs) ys = ground (arith, keep-append p xs ys)

  pub any-keep : (p : A → Bool) (xs : List A) → length (keep p xs) ≢ 0 → any p xs ≡ true
  any-keep p [] h = absurd (h (omega arith))
  any-keep p (x ∷ xs) h = ground (arith, any-keep p xs)

  pub any-keep_absent :
      (p q : A → Bool) (xs : List A) → any p xs ≡ false → any p (keep q xs) ≡ false
  any-keep_absent p q [] h = refl
  any-keep_absent p q (x ∷ xs) h = ground (arith, any-keep_absent p q xs)

  pub any-keep_and : (p q : A → Bool) (xs : List A) → any p (keep q xs) ≡ any (λ x. q x && p x) xs
  any-keep_and p q [] = refl
  any-keep_and p q (x ∷ xs) = ground (arith, any-keep_and p q xs)

  pub any-take-map :
      (p : A → Bool) (f : A → A)
      → ((x : A) → p (f x) ≡ p x)
      → (n : ℕ) (xs : List A) → any p (take n (map f xs)) ≡ any p (take n xs)
  any-take-map p f e zero xs = refl
  any-take-map p f e (suc n) [] = refl
  any-take-map p f e (suc n) (x ∷ xs) = rw (e x, any-take-map p f e n xs) refl

  pub All-take-map {κ} :
      (P : A → Type κ) (f : A → A)
      → ((x : A) → P x → P (f x))
      → (n : ℕ) (xs : List A) → All P xs
      → All P (take n (map f xs))
  All-take-map P f e zero xs h = tt
  All-take-map P f e (suc n) [] h = tt
  All-take-map P f e (suc n) (x ∷ xs) h = (e x h.0, All-take-map P f e n xs h.1)

  pub All-append {κ} : (P : A → Type κ) (xs ys : List A) → All P xs → All P ys → All P (xs ++ ys)
  All-append P [] ys hx hy = hy
  All-append P (x ∷ xs) ys hx hy = (hx.0, All-append P xs ys hx.1 hy)

  pub All-keep {κ} : (P : A → Type κ) (p : A → Bool) (xs : List A) → All P xs → All P (keep p xs)
  All-keep P p [] h = tt
  All-keep P p (x ∷ xs) h = ground (arith, All-keep P p xs h.1)

  pub All-drop {κ} : (P : A → Type κ) (n : ℕ) (xs : List A) → All P xs → All P (drop n xs)
  All-drop P zero xs h = h
  All-drop P (suc n) [] h = tt
  All-drop P (suc n) (x ∷ xs) h = All-drop P n xs h.1

-- `x in xs`, `xs.count(x)`, and lists with no repetition, by the instance's test
module _ {ℓ} {A : Type ℓ} ⦃e : Eq A⦄ where
  abbrev pub contains : A → List A → Bool
  contains a [] = false
  contains a (x ∷ xs) = x == a || contains a xs

  abbrev pub count : A → List A → ℕ
  count a [] = 0
  count a (x ∷ xs) = let rest = count a xs in if x == a then suc rest else rest

  abbrev pub Distinct : List A → Type 0
  Distinct [] = Unit
  Distinct (x ∷ xs) = (contains x xs ≡ false) × Distinct xs

  -- `list(dict.fromkeys(xs))`: the first of each, in order, `seen` holding what came before
  abbrev pub dedupe_from : List A → List A → List A
  dedupe_from seen [] = []
  dedupe_from seen (x ∷ xs) = elim (contains x seen) [
    | true ↦ dedupe_from seen xs
    | false ↦ x ∷ dedupe_from (x ∷ seen) xs
  ]

  abbrev pub dedupe : List A → List A
  dedupe = dedupe_from []

module _ {ℓ} {A : Type ℓ} ⦃e : Eq A⦄ where
  pub contains-append :
      (a : A) (xs ys : List A) → contains a (xs ++ ys) ≡ (contains a xs || contains a ys)
  contains-append a [] ys = refl
  contains-append a (x ∷ xs) ys = ground (arith, contains-append a xs ys)

  -- The list without an element.
  abbrev pub without : A → List A → List A
  without a = keep (λ x. not (x == a))

  pub contains-without :
      (a b : A) (xs : List A) → contains b (without a xs) ≡ (not (a == b) && contains b xs)
  contains-without a b [] = ground arith
  contains-without a b (x ∷ xs) =
      ground (arith, contains-without a b xs, e.beq_iff a b, e.beq_iff x a, e.beq_iff x b)

  pub length-without-lt :
      (a : A) (xs : List A) → contains a xs ≡ true → length (without a xs) < length xs
  length-without-lt a [] h = ground arith
  length-without-lt a (x ∷ xs) h =
      ground (arith, length-without-lt a xs, length-keep-le (λ y. not (y == a)) xs)

  pub without_twice : (a : A) (xs : List A) → without a (without a xs) ≡ without a xs
  without_twice a [] = refl
  without_twice a (x ∷ xs) = ground (arith, without_twice a xs)

  pub contains-keep :
      (p : A → Bool) (a : A) (xs : List A) → contains a (keep p xs) ≡ (p a && contains a xs)
  contains-keep p a [] = ground arith
  contains-keep p a (x ∷ xs) = ground (arith, contains-keep p a xs, e.beq_iff x a)
