-- ===== src/Tests/OutputTests.antt =====
-- Runs of the truncation of tools' outputs. A character is its code, and the markers are only numbers.
use deer_seek_backend.Prelude.{
  ℕ, ◌+◌, ◌≤◌, ◌<◌, ◌≡◌, refl, arith, String, Bool, true, none, some, List, [], ◌∷◌, ◌++◌, ◌==◌,
  nat_eq, string_eq, length,
}
use deer_seek_backend.Output.{digits, digits_from, text_marker}
use deer_seek_backend.Output.Truncate.{
  truncate_bash_output, truncate_read_file_output, truncate_ls_output, middle_truncated, cut_middle,
}
use deer_seek_backend.Output.Bounded.{truncations_bounded}
use deer_seek_backend.Output.Budget.{
  Config, ToolMessage, Texts, build_fallback, patch_tool_message, wrap_tool_call,
}
use deer_seek_backend.Output.Overflow.{fallback_overflow}
use deer_seek_backend.Output.Fits.{fallback_bounded}
use deer_seek_backend.Output.Scan.{scan_is_sound}

abbrev digit : ℕ → ℕ
digit n = 48 + n

abbrev is_newline : ℕ → Bool
is_newline c = c == 10

abbrev first_lines : List ℕ
first_lines = 97 ∷ 98 ∷ 10 ∷ 99 ∷ 100 ∷ 101 ∷ []

abbrev last_line : List ℕ
last_line = 102 ∷ 103 ∷ 104 ∷ 105 ∷ 106 ∷ []

-- Four characters of five, one of them the number of those that are skipped.
middle_skipped : truncate_bash_output digit [] [] 4 last_line ≡ 102 ∷ 50 ∷ 105 ∷ 106 ∷ []
unfolding truncate_bash_output middle_truncated cut_middle text_marker digits digits_from
middle_skipped = refl

truncations_bounded_example :
    (length (truncate_bash_output digit [] [] 4 last_line) ≤ 4)
    × (length (truncate_read_file_output digit [] [] [] 4 last_line) ≤ 4)
    × (length (truncate_ls_output digit [] [] [] 4 last_line) ≤ 4)
truncations_bounded_example = truncations_bounded digit [] [] [] 4 last_line (omega arith)

two_digits : length (text_marker digit [] [] 12) ≡ 2
unfolding text_marker digits digits_from
two_digits = refl

fallback_overflow_example :
    4 < length (build_fallback is_newline digit [] [] 4 1 1 (first_lines ++ 10 ∷ last_line))
fallback_overflow_example =
    fallback_overflow is_newline digit [] [] first_lines 10 last_line 4 1 1 refl refl (omega arith)
      (omega arith) (omega (arith, two_digits)) (omega arith)

fallback_bounded_example : length (build_fallback is_newline digit [] [] 4 1 1 last_line) ≤ 4
fallback_bounded_example =
    fallback_bounded is_newline digit [] [] 4 1 1 last_line refl (omega arith)

abbrev config : Config
config = record {
  enabled = true;
  externalize_min_chars = 12000;
  tool_overrides = ("bash", 20000) ∷ [];
  fallback_max_chars = 30000;
  fallback_head_chars = 8000;
  fallback_tail_chars = 3000;
  preview_head_chars = 2000;
  preview_tail_chars = 1000;
  exempt_tools = "read_file" ∷ [];
}

abbrev no_texts : Texts ℕ String
no_texts = record { reference = λ name path content. ([], []); omission = λ name. ([], []) }

abbrev message : ToolMessage ℕ
message = record { name = some "bash"; text = some last_line }

scan_is_sound_example :
    wrap_tool_call is_newline digit no_texts config none message
    ≡ patch_tool_message is_newline digit no_texts config none message
scan_is_sound_example =
    scan_is_sound is_newline digit no_texts config none "bash" (some last_line) refl
