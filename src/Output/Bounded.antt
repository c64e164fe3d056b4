-- ===== src/Output/Bounded.antt =====
-- Truncated outputs fit (sandbox/tools.py).
use deer_seek_backend.Prelude.{
  ℕ, ◌+◌, ◌-◌, ◌/◌, ◌≤◌, ◌<◌, ◌≡◌, arith, List, ◌++◌, nat_eq, length, length-append, length-take,
  length-drop, take,
}
use deer_seek_backend.Output.{digits, last_chars, text_marker}
use deer_seek_backend.Output.Digits.{length-digits}
use deer_seek_backend.Output.Truncate.{
  kept_chars, cut_middle, middle_truncated, truncate_bash_output, head_marker, head_truncated,
  truncate_read_file_output, truncate_ls_output,
}

module _ {A : Type 0} (digit : ℕ → A) where
  length-text_marker :
      (before after : List A) (n : ℕ)
      → length (text_marker digit before after n)
        ≡ length before + (length (digits digit n) + length after)
  unfolding text_marker
  length-text_marker before after n =
      omega (
        arith,
        length-append (before ++ digits digit n) after,
        length-append before (digits digit n),
      )

  pub text_marker-le :
      (before after : List A) (m n : ℕ)
      → m ≤ n
      → length (text_marker digit before after m) ≤ length (text_marker digit before after n)
  text_marker-le before after m n le = omega (
    arith,
    length-text_marker before after m,
    length-text_marker before after n,
    length-digits digit m n le,
  )

  length-cut_middle :
      (kept : ℕ) (marker output : List A)
      → kept ≤ length output
      → length (cut_middle digit kept marker output) ≡ kept + length marker
  unfolding cut_middle
  length-cut_middle kept marker output fits =
      let n = kept / 2 in
      omega (
        arith,
        length-append (take n output ++ marker) (last_chars (kept - n) output),
        length-append (take n output) marker,
        length-take n output,
        length-drop (length output - (kept - n)) output,
      )

  middle-bounded :
      (before after : List A) (max_chars : ℕ) (output : List A)
      → max_chars < length output
      → length (
          middle_truncated digit before after
            (kept_chars digit max_chars (text_marker digit before after (length output)))
            max_chars
            output)
        ≤ max_chars
  unfolding middle_truncated
  middle-bounded before after max_chars output long =
      let marker = text_marker digit before after in
      let kept = kept_chars digit max_chars (marker (length output)) in
      ground (
        arith,
        length-take max_chars output,
        length-cut_middle kept (marker (length output - kept)) output (omega arith),
        text_marker-le before after (length output - kept) (length output) (omega arith),
      )

  -- A limit other than 0 is kept: no output of `bash` is longer, with its marker.
  pub bash_bounded :
      (before after : List A) (max_chars : ℕ) (output : List A)
      → 0 < max_chars
      → length (truncate_bash_output digit before after max_chars output) ≤ max_chars
  unfolding truncate_bash_output
  bash_bounded before after max_chars output h =
      ground (arith, middle-bounded before after max_chars output)

  length-head_marker :
      (before between after : List A) (m n : ℕ)
      → length (head_marker digit before between after m n)
        ≡ length before
          + (length (digits digit m) + (length between + (length (digits digit n) + length after)))
  unfolding head_marker
  length-head_marker before between after m n = omega (
    arith,
    length-append (before ++ digits digit m ++ between ++ digits digit n) after,
    length-append (before ++ digits digit m ++ between) (digits digit n),
    length-append (before ++ digits digit m) between,
    length-append before (digits digit m),
  )

  cut_head-bounded :
      (before between after : List A) (max_chars : ℕ) (output : List A)
      → max_chars < length output
      → let longest = head_marker digit before between after (length output) (length output) in
        length (
          head_truncated digit before between after
            (kept_chars digit max_chars longest)
            max_chars
            output)
        ≤ max_chars
  unfolding head_truncated
  cut_head-bounded before between after max_chars output long =
      let n = length output in
      let kept = kept_chars digit max_chars (head_marker digit before between after n n) in
      ground (
        arith,
        length-take max_chars output,
        length-take kept output,
        length-append (take kept output) (head_marker digit before between after kept n),
        length-head_marker before between after kept n,
        length-head_marker before between after n n,
        length-digits digit kept n (omega arith),
      )

  -- And none of `read_file` or `ls`.
  pub head_bounded :
      (before between after : List A) (max_chars : ℕ) (output : List A)
      → 0 < max_chars
      → length (truncate_read_file_output digit before between after max_chars output) ≤ max_chars
  unfolding truncate_read_file_output
  head_bounded before between after max_chars output h =
      ground (arith, cut_head-bounded before between after max_chars output)

  -- Under a limit of at least 1, no output of bash, and none of read_file or ls, is longer than the
  -- limit, with its marker.
  pub truncations_bounded :
      (before between after : List A) (max_chars : ℕ) (output : List A)
      → 0 < max_chars
      → (length (truncate_bash_output digit before after max_chars output) ≤ max_chars)
        × (length (truncate_read_file_output digit before between after max_chars output)
            ≤ max_chars)
        × (length (truncate_ls_output digit before between after max_chars output) ≤ max_chars)
  truncations_bounded before between after max_chars output h = (
    bash_bounded before after max_chars output h,
    head_bounded before between after max_chars output h,
    head_bounded before between after max_chars output h,
  )
