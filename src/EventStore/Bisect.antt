-- ===== src/EventStore/Bisect.antt =====
-- Python's `bisect_left` and `bisect_right` with a key, as the binary searches that they are, and
-- their reference: on a list with rising keys they cut off the part below (or up to) the bound.
use deer_seek_backend.Prelude.{
  ℕ, zero, suc, ◌+◌, ◌-◌, ◌/◌, ◌≤◌, ◌<◌, ◌≡◌, refl, Bool, true, false, List, [], ◌∷◌, ltb, leb, not,
  length, take, drop, get_elem?, none, some, arith, keep, length-keep-le,
}

module _ {ℓ} {A : Type ℓ} where
  -- The element at an index satisfies the test; no index past the end does.
  abbrev pub at : (A → Bool) → List A → ℕ → Bool
  at p xs i = elim (get_elem? xs i) [ none ↦ false | some x ↦ p x ]

  -- `while lo < hi: mid = (lo + hi) // 2; if below(a[mid]): lo = mid + 1; else: hi = mid`
  unfoldable pub bisect : ℕ → (A → Bool) → List A → ℕ → ℕ → ℕ
  bisect zero below xs lo hi = lo
  bisect (suc fuel) below xs lo hi =
      let mid = (lo + hi) / 2 in
      elim (ltb lo hi) [
        | false ↦ lo
        | true ↦ elim (at below xs mid) [
          | true ↦ bisect fuel below xs (mid + 1) hi
          | false ↦ bisect fuel below xs lo mid
        ]
      ]

  unfoldable pub bisect_left : (A → ℕ) → List A → ℕ → ℕ
  bisect_left key xs x = bisect (suc (length xs)) (λ a. ltb (key a) x) xs 0 (length xs)

  unfoldable pub bisect_right : (A → ℕ) → List A → ℕ → ℕ
  bisect_right key xs x = bisect (suc (length xs)) (λ a. leb (key a) x) xs 0 (length xs)

  -- Once the test fails, it fails for the rest of the list.
  abbrev pub Cuts : (A → Bool) → List A → Type ℓ
  Cuts p [] = Unit
  Cuts p (x ∷ xs) = (p x ≡ false → keep p xs ≡ []) × Cuts p xs

  cut_at : (p : A → Bool) (xs : List A) (i : ℕ) → Cuts p xs → at p xs i ≡ ltb i (length (keep p xs))
  cut_at p [] i c = ground arith
  cut_at p (x ∷ xs) zero c = ground (arith, c.0)
  cut_at p (x ∷ xs) (suc i) c = ground (arith, c.0, cut_at p xs i c.1)

  bisect-cut :
      (fuel : ℕ) (p : A → Bool) (xs : List A) (lo hi : ℕ)
      → Cuts p xs
      → hi - lo < fuel
      → lo ≤ length (keep p xs)
      → length (keep p xs) ≤ hi
      → bisect fuel p xs lo hi ≡ length (keep p xs)
  unfolding bisect
  bisect-cut zero p xs lo hi c m l h = absurd (omega arith)
  bisect-cut (suc fuel) p xs lo hi c m l h = ground (
    arith,
    cut_at p xs ((lo + hi) / 2) c,
    bisect-cut fuel p xs ((lo + hi) / 2 + 1) hi c,
    bisect-cut fuel p xs lo ((lo + hi) / 2) c,
  )

  take-cut : (p : A → Bool) (xs : List A) → Cuts p xs → take (length (keep p xs)) xs ≡ keep p xs
  take-cut p [] c = refl
  take-cut p (x ∷ xs) c = ground (arith, c.0, take-cut p xs c.1)

  drop-cut :
      (p : A → Bool) (xs : List A)
      → Cuts p xs
      → drop (length (keep p xs)) xs ≡ keep (λ x. not (p x)) xs
  drop-cut p [] c = refl
  drop-cut p (x ∷ xs) c = ground (arith, c.0, drop-cut p xs c.1)

  pub bisect_whole :
      (p : A → Bool) (xs : List A)
      → Cuts p xs
      → bisect (suc (length xs)) p xs 0 (length xs) ≡ length (keep p xs)
  bisect_whole p xs c =
      bisect-cut (suc (length xs)) p xs 0 (length xs) c (omega arith) (omega arith)
        (length-keep-le p xs)

-- Keys that rise strictly, from above a bound on.
abbrev pub Rising {ℓ} : {A : Type ℓ} → (A → ℕ) → ℕ → List A → Type 0
Rising key n [] = Unit
Rising key n (x ∷ xs) = (n < key x) × Rising key (key x) xs

module _ {ℓ} {A : Type ℓ} (key : A → ℕ) where
  Rising-above :
      (n : ℕ) (xs : List A) (p : A → Bool)
      → Rising key n xs
      → ((x : A) → n < key x → p x ≡ false)
      → keep p xs ≡ []
  Rising-above n [] p r h = refl
  Rising-above n (x ∷ xs) p r h =
      ground (arith, h x r.0, Rising-above (key x) xs p r.1 (λ y lt. h y (omega (arith, r.0))))

  Rising-Cuts :
      (n : ℕ) (xs : List A) (p : A → Bool)
      → Rising key n xs
      → ((x y : A) → p x ≡ false → key x < key y → p y ≡ false)
      → Cuts p xs
  Rising-Cuts n [] p r h = tt
  Rising-Cuts n (x ∷ xs) p r h =
      (λ e. Rising-above (key x) xs p r.1 (λ y lt. h x y e lt), Rising-Cuts (key x) xs p r.1 h)

  module _ (n : ℕ) (xs : List A) (x : ℕ) (r : Rising key n xs) where
    below_Cuts : Cuts (λ a. ltb (key a) x) xs
    below_Cuts = Rising-Cuts n xs (λ a. ltb (key a) x) r (λ a b h lt. ground arith)

    upto_Cuts : Cuts (λ a. leb (key a) x) xs
    upto_Cuts = Rising-Cuts n xs (λ a. leb (key a) x) r (λ a b h lt. ground arith)

    -- The binary search finds the part of the list below the bound.
    pub take-bisect_left : take (bisect_left key xs x) xs ≡ keep (λ a. ltb (key a) x) xs
    unfolding bisect_left
    take-bisect_left =
        rw (bisect_whole (λ a. ltb (key a) x) xs below_Cuts) (take-cut _ xs below_Cuts)

    pub bisect_left-count : bisect_left key xs x ≡ length (keep (λ a. ltb (key a) x) xs)
    unfolding bisect_left
    bisect_left-count = bisect_whole (λ a. ltb (key a) x) xs below_Cuts

    pub drop-bisect_right : drop (bisect_right key xs x) xs ≡ keep (λ a. not (leb (key a) x)) xs
    unfolding bisect_right
    drop-bisect_right =
        rw (bisect_whole (λ a. leb (key a) x) xs upto_Cuts) (drop-cut _ xs upto_Cuts)
