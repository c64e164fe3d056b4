-- ===== src/Output.antt =====
-- How long outputs of tools are cut: sandbox/tools.py (Output.Truncate) and
-- agents/middlewares/tool_output_budget_middleware.py (Output.Budget), both of
-- packages/harness/deerflow. A text is a list of characters of any type `A`, and `digit` gives the
-- character of a digit.
pub mod Digits
pub mod Truncate
pub mod Bounded
pub mod Budget
pub mod Overflow
pub mod Scan
pub mod Fits
use deer_seek_backend.Prelude.{
  ℕ, suc, zero, ◌-◌, ◌/◌, ◌%◌, Bool, true, false, Option, none, some, List, [], ◌∷◌, ◌++◌, length,
  take, drop, ltb, if◌then◌else◌,
}

module _ {A : Type 0} where
  -- `str(n)`, with as much fuel as `n` is large.
  unfoldable pub digits_from : (ℕ → A) → ℕ → ℕ → List A
  digits_from digit zero n = digit n ∷ []
  digits_from digit (suc fuel) n =
      let rest = digits_from digit fuel (n / 10) in
      if ltb n 10 then digit n ∷ [] else rest ++ digit (n % 10) ∷ []

  unfoldable pub digits : (ℕ → A) → ℕ → List A
  unfolding digits_from
  digits digit n = digits_from digit n n

  -- A number between two texts.
  unfoldable pub text_marker : (ℕ → A) → List A → List A → ℕ → List A
  unfolding digits
  text_marker digit before after n = before ++ digits digit n ++ after

  -- text[-n:] if n > 0 else ""
  abbrev pub last_chars : ℕ → List A → List A
  last_chars n text = drop (length text - n) text
