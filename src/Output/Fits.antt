-- ===== src/Output/Fits.antt =====
-- Where the fallback keeps its limit (tool_output_budget_middleware.py).
use deer_seek_backend.Prelude.{
  ℕ, suc, zero, ◌+◌, ◌-◌, ◌/◌, min, max, ◌≤◌, ◌<◌, ◌≡◌, refl, ap, ◌∙◌, arith, Bool, true, false,
  ◌||◌, List, [], ◌∷◌, ◌++◌, ◌==◌, nat_eq, length, length-append, length-take, length-drop, take,
  drop, any, leb, if◌then◌else◌,
}
use deer_seek_backend.Output.{text_marker}
use deer_seek_backend.Output.Bounded.{text_marker-le}
use deer_seek_backend.Output.Overflow.{last_newline-none, any-take}
use deer_seek_backend.Output.Budget.{
  rfind, after_newline, snap_to_line_boundary, snapped_tail, tail_start, cut_between, head_and_tail,
  within_budget, build_fallback,
}

length-branches :
    {A : Type 0} (a b : Bool) (x y z : List A) (n : ℕ)
    → (a ≡ true → length x ≤ n)
    → length y ≤ n
    → (b ≡ false → length z ≤ n)
    → length (if a then x else if b then y else z) ≤ n
length-branches true b x y z n hx hy hz = hx refl
length-branches false true x y z n hx hy hz = hy
length-branches false false x y z n hx hy hz = hz refl

module _ {A : Type 0} (is_newline : A → Bool) where
  any-drop : (n : ℕ) (xs : List A) → any is_newline xs ≡ false → any is_newline (drop n xs) ≡ false
  any-drop zero xs h = h
  any-drop (suc n) [] h = refl
  any-drop (suc n) (x ∷ xs) h = any-drop n xs (ground (arith, h))

  snap_one_line :
      (content : List A) (pos : ℕ)
      → any is_newline content ≡ false
      → snap_to_line_boundary is_newline content pos ≡ pos
  unfolding snap_to_line_boundary rfind after_newline
  snap_one_line content pos h =
      let nowhere =
        last_newline-none is_newline (pos / 2) (drop (pos / 2) (take pos content))
          (any-drop (pos / 2) (take pos content) (any-take is_newline pos content h)) in
      ground (arith, nowhere)

  tail_start_one_line :
      (content : List A) (head_end tail_chars : ℕ)
      → any is_newline content ≡ false
      → tail_start is_newline content head_end tail_chars
        ≡ max head_end (length content - tail_chars)
  unfolding tail_start snapped_tail
  tail_start_one_line content head_end tail_chars h =
      let start = max head_end (length content - tail_chars) in
      ap (snapped_tail head_end start) (snap_one_line content start h) ∙ ground arith

  module _ (digit : ℕ → A) (before after : List A) where
    length-cut_between :
        (content : List A) (head_end start : ℕ)
        → length (cut_between is_newline digit before after content head_end start)
          ≤ head_end
            + length (text_marker digit before after (length content))
            + (length content - start)
    unfolding cut_between
    length-cut_between content head_end start =
        let head = take head_end content in
        let tail = drop start content in
        let omitted = length content - length head - length tail in
        let m = text_marker digit before after omitted in
        omega (
          arith,
          length-append (head ++ m) tail,
          length-append head m,
          length-take head_end content,
          length-drop start content,
          text_marker-le digit before after omitted (length content) (omega arith),
        )

    within-bounded :
        (budget head_chars tail_chars : ℕ) (content : List A)
        → any is_newline content ≡ false
        → length (within_budget is_newline digit before after budget head_chars tail_chars content)
          ≤ budget + length (text_marker digit before after (length content))
    unfolding within_budget head_and_tail
    within-bounded budget head_chars tail_chars content h =
        let tail = min tail_chars (budget - min head_chars budget) in
        let head = min (min head_chars budget) (length content) in
        let head_end = snap_to_line_boundary is_newline content head in
        omega (
          arith,
          snap_one_line content head h,
          tail_start_one_line content head_end tail h,
          length-cut_between content head_end (tail_start is_newline content head_end tail),
        )

    -- A text of one line is cut to the limit.
    pub fallback_bounded :
        (max_chars head_chars tail_chars : ℕ) (content : List A)
        → any is_newline content ≡ false
        → 0 < max_chars
        → length
            (build_fallback is_newline digit before after max_chars head_chars tail_chars content)
          ≤ max_chars
    unfolding build_fallback
    fallback_bounded max_chars head_chars tail_chars content h limit =
        let overhead = length (text_marker digit before after (length content)) in
        length-branches (max_chars == 0 || leb (length content) max_chars) (leb max_chars overhead)
          content (take max_chars content) _ max_chars (λ short. ground (arith, limit, short))
          (omega (arith, length-take max_chars content))
          (λ long.
            ground
              (arith, long, within-bounded (max_chars - overhead) head_chars tail_chars content h))
