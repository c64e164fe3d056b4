-- ===== src/Output/Digits.antt =====
-- The length of a number in decimal digits.
use deer_seek_backend.Prelude.{ℕ, suc, zero, ◌/◌, ◌%◌, ◌≤◌, arith, [], ◌∷◌, length, length-append}
use deer_seek_backend.Output.{digits_from, digits}

module _ {A : Type 0} (digit : ℕ → A) where
  one_digit : (k n : ℕ) → 1 ≤ length (digits_from digit k n)
  unfolding digits_from
  one_digit zero n = omega arith
  one_digit (suc k) n =
      ground (arith, length-append (digits_from digit k (n / 10)) (digit (n % 10) ∷ []))

  length-digits_from :
      (k l m n : ℕ)
      → m ≤ n
      → m ≤ k
      → n ≤ l
      → length (digits_from digit k m) ≤ length (digits_from digit l n)
  unfolding digits_from
  length-digits_from zero l m n le mk nl = one_digit l n
  length-digits_from (suc k) zero m n le mk nl = ground arith
  length-digits_from (suc k) (suc l) m n le mk nl = ground (
    arith,
    one_digit (suc l) n,
    length-digits_from k l (m / 10) (n / 10) (omega arith) (omega arith) (omega arith),
    length-append (digits_from digit k (m / 10)) (digit (m % 10) ∷ []),
    length-append (digits_from digit l (n / 10)) (digit (n % 10) ∷ []),
  )

  pub length-digits : (m n : ℕ) → m ≤ n → length (digits digit m) ≤ length (digits digit n)
  unfolding digits
  length-digits m n le = length-digits_from m n m n le (omega arith) (omega arith)
