-- ===== src/Output/Overflow.antt =====
-- Where the fallback does not keep its limit (tool_output_budget_middleware.py).
use deer_seek_backend.Prelude.{
  ℕ, suc, zero, ◌+◌, ◌-◌, ◌/◌, min, max, ◌≤◌, ◌<◌, ◌≡◌, refl, ap, ◌∙◌, arith, Bool, true, false,
  ◌||◌, none, some, List, [], ◌∷◌, ◌++◌, ◌==◌, nat_eq, length, length-append, length-take,
  length-drop, take, drop, any, leb, if◌then◌else◌, Option-cases, if_false, inl, inr,
}
use deer_seek_backend.Output.{text_marker}
use deer_seek_backend.Output.Budget.{
  or_index, last_newline, rfind, after_newline, snap_to_line_boundary, snapped_tail, tail_start,
  cut_between, head_and_tail, within_budget, build_fallback,
}

module _ {A : Type 0} (is_newline : A → Bool) where
  pub last_newline-none :
      (i : ℕ) (xs : List A) → any is_newline xs ≡ false → last_newline is_newline i xs ≡ none
  unfolding last_newline or_index
  last_newline-none i [] h = refl
  last_newline-none i (x ∷ xs) h = ground (arith, last_newline-none (suc i) xs)

  last_newline_at :
      (i : ℕ) (xs : List A) (nl : A) (ys : List A)
      → is_newline nl ≡ true
      → any is_newline ys ≡ false
      → last_newline is_newline i (xs ++ nl ∷ ys) ≡ some (i + length xs)
  unfolding last_newline or_index
  last_newline_at i [] nl ys here none_after = ground (arith, last_newline-none (suc i) ys)
  last_newline_at i (x ∷ xs) nl ys here none_after =
      ground (arith, last_newline_at (suc i) xs nl ys here none_after)

  pub any-take :
      (n : ℕ) (ys : List A) → any is_newline ys ≡ false → any is_newline (take n ys) ≡ false
  any-take zero ys h = refl
  any-take (suc n) [] h = refl
  any-take (suc n) (y ∷ ys) h = ground (arith, any-take n ys)

  take_past :
      (n : ℕ) (xs : List A) (nl : A) (ys : List A)
      → length xs < n
      → take n (xs ++ nl ∷ ys) ≡ xs ++ nl ∷ take (n - suc (length xs)) ys
  take_past zero xs nl ys h = absurd (omega arith)
  take_past (suc n) [] nl ys h = ap (λ k. nl ∷ take k ys) (omega arith)
  take_past (suc n) (x ∷ xs) nl ys h =
      ap (λ zs. x ∷ zs)
        (take_past n xs nl ys (omega arith) ∙ ap (λ k. xs ++ nl ∷ take k ys) (omega arith))

  drop_within : (n : ℕ) (xs zs : List A) → n ≤ length xs → drop n (xs ++ zs) ≡ drop n xs ++ zs
  drop_within zero xs zs h = refl
  drop_within (suc n) [] zs h = absurd (omega arith)
  drop_within (suc n) (x ∷ xs) zs h = drop_within n xs zs (omega arith)

  last_newline-lt :
      (i j : ℕ) (xs : List A) → last_newline is_newline i xs ≡ some j → j < i + length xs
  unfolding last_newline or_index
  last_newline-lt i j [] found = absurd (ground (arith, found))
  last_newline-lt i j (x ∷ xs) found = elim (Option-cases (last_newline is_newline (suc i) xs)) [
    | inl none_after ↦ ground (arith, found, none_after)
    | inr (k, there) ↦ ground (arith, found, there, last_newline-lt (suc i) k xs there)
  ]

  rfind_last :
      (xs : List A) (nl : A) (ys : List A) (lo hi : ℕ)
      → is_newline nl ≡ true
      → any is_newline ys ≡ false
      → length xs < hi
      → lo ≤ length xs
      → rfind is_newline (xs ++ nl ∷ ys) lo hi ≡ some (length xs)
  unfolding rfind
  rfind_last xs nl ys lo hi here none_after past low =
      let rest = take (hi - suc (length xs)) ys in
      ap (λ zs. last_newline is_newline lo (drop lo zs)) (take_past hi xs nl ys past)
      ∙ ap (last_newline is_newline lo) (drop_within lo xs (nl ∷ rest) low)
      ∙ last_newline_at lo (drop lo xs) nl rest here (any-take (hi - suc (length xs)) ys none_after)
      ∙ ap some (omega (arith, length-drop lo xs))

  rfind-lt : (text : List A) (lo hi j : ℕ) → lo ≤ hi → rfind is_newline text lo hi ≡ some j → j < hi
  unfolding rfind
  rfind-lt text lo hi j low found = omega (
    arith,
    last_newline-lt lo j (drop lo (take hi text)) found,
    length-drop lo (take hi text),
    length-take hi text,
  )

  -- The newline of the last line is found from any place in that line.
  snap_last_line :
      (xs : List A) (nl : A) (ys : List A) (pos : ℕ)
      → is_newline nl ≡ true
      → any is_newline ys ≡ false
      → length xs < pos
      → pos < length (xs ++ nl ∷ ys)
      → pos / 2 ≤ length xs
      → snap_to_line_boundary is_newline (xs ++ nl ∷ ys) pos ≡ suc (length xs)
  unfolding snap_to_line_boundary after_newline
  snap_last_line xs nl ys pos here none_after past within half =
      ground (arith, rfind_last xs nl ys (pos / 2) pos here none_after past half)

  snap-le : (content : List A) (pos : ℕ) → snap_to_line_boundary is_newline content pos ≤ pos
  unfolding snap_to_line_boundary after_newline
  snap-le content pos = elim (Option-cases (rfind is_newline content (pos / 2) pos)) [
    | inl nowhere ↦ ground (arith, nowhere)
    | inr (j, there) ↦ ground (arith, there, rfind-lt content (pos / 2) pos j (omega arith) there)
  ]

  module _ (digit : ℕ → A) (before after : List A) where
    tail_stays :
        (content : List A) (head_end start : ℕ)
        → length content - start
          ≤ length (cut_between is_newline digit before after content head_end start)
    unfolding cut_between
    tail_stays content head_end start =
        let head = take head_end content in
        let tail = drop start content in
        let m = text_marker digit before after (length content - length head - length tail) in
        omega (arith, length-append (head ++ m) tail, length-drop start content)

    tail_start_last_line :
        (xs : List A) (nl : A) (ys : List A) (head_end tail_chars : ℕ)
        → is_newline nl ≡ true
        → any is_newline ys ≡ false
        → length ys < length xs
        → head_end ≤ length xs
        → 0 < tail_chars
        → tail_chars < length ys
        → tail_start is_newline (xs ++ nl ∷ ys) head_end tail_chars ≡ suc (length xs)
    unfolding tail_start snapped_tail
    tail_start_last_line xs nl ys head_end tail_chars here none_after long low some_tail short =
        let content = xs ++ nl ∷ ys in
        let total = length-append xs (nl ∷ ys) in
        let start = max head_end (length content - tail_chars) in
        ap (snapped_tail head_end start)
          (snap_last_line xs nl ys start here none_after (omega arith) (omega arith) (omega arith))
        ∙ ground (arith, low)

    -- A text whose last line is longer than the limit, while the lines before it are longer still,
    -- is cut to more than the limit by the fallback, if the limit has room for the marker and the
    -- head, and a tail is asked for: the whole last line stays.
    pub fallback_overflow :
        (xs : List A) (nl : A) (ys : List A) (max_chars head_chars tail_chars : ℕ)
        → is_newline nl ≡ true
        → any is_newline ys ≡ false
        → max_chars < length ys
        → length ys < length xs
        → length (text_marker digit before after (length (xs ++ nl ∷ ys))) + head_chars < max_chars
        → 0 < tail_chars
        → max_chars
          < length (
              build_fallback is_newline digit before after max_chars head_chars tail_chars
                (xs ++ nl ∷ ys))
    unfolding build_fallback within_budget head_and_tail
    fallback_overflow xs nl ys max_chars head_chars tail_chars here none_after long longer fits
          some_tail =
        let content = xs ++ nl ∷ ys in
        let total = length-append xs (nl ∷ ys) in
        let overhead = length (text_marker digit before after (length content)) in
        let budget = max_chars - overhead in
        let tail = min tail_chars (budget - min head_chars budget) in
        let head = min (min head_chars budget) (length content) in
        let head_end = snap_to_line_boundary is_newline content head in
        let low = snap-le content head in
        let start = tail_start is_newline content head_end tail in
        let at_line =
          tail_start_last_line xs nl ys head_end tail here none_after longer (omega arith)
            (omega arith) (omega arith) in
        let stays = tail_stays content head_end start in
        let cut =
          if_false (max_chars == 0 || leb (length content) max_chars) content
            (if leb max_chars overhead
              then take max_chars content
              else within_budget is_newline digit before after budget head_chars tail_chars content)
            (ground arith)
          ∙ if_false (leb max_chars overhead) (take max_chars content)
              (within_budget is_newline digit before after budget head_chars tail_chars content)
              (ground arith) in
        omega (arith, total, at_line, stays, ap length cut)
