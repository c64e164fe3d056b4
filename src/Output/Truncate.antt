-- ===== src/Output/Truncate.antt =====
-- packages/harness/deerflow/sandbox/tools.py: the truncation of the outputs of the sandbox's tools.
-- `before`, `between` and `after` are the texts of a marker around its numbers.
use deer_seek_backend.Prelude.{
  ℕ, ◌-◌, ◌/◌, List, ◌++◌, ◌==◌, nat_eq, length, take, leb, if◌then◌else◌,
}
use deer_seek_backend.Output.{digits, last_chars, text_marker}

module _ {A : Type 0} (digit : ℕ → A) where
  -- The number of characters that are kept beside a marker.
  abbrev pub kept_chars : ℕ → List A → ℕ
  kept_chars max_chars longest = max_chars - length longest

  unfoldable pub cut_middle : ℕ → List A → List A → List A
  cut_middle kept marker output =
      take (kept / 2) output ++ marker ++ last_chars (kept - kept / 2) output

  unfoldable pub middle_truncated : List A → List A → ℕ → ℕ → List A → List A
  unfolding cut_middle text_marker
  middle_truncated before after kept max_chars output =
      if kept == 0
      then take max_chars output
      else cut_middle kept (text_marker digit before after (length output - kept)) output

  -- `_truncate_bash_output`
  unfoldable pub truncate_bash_output : List A → List A → ℕ → List A → List A
  unfolding middle_truncated text_marker
  truncate_bash_output before after max_chars output =
      if max_chars == 0
      then output
      else if leb (length output) max_chars
      then output
      else middle_truncated before after
          (kept_chars max_chars (text_marker digit before after (length output))) max_chars output

  unfoldable pub head_marker : List A → List A → List A → ℕ → ℕ → List A
  unfolding digits
  head_marker before between after kept total =
      before ++ digits digit kept ++ between ++ digits digit total ++ after

  unfoldable pub head_truncated : List A → List A → List A → ℕ → ℕ → List A → List A
  unfolding head_marker
  head_truncated before between after kept max_chars output =
      if kept == 0
      then take max_chars output
      else take kept output ++ head_marker before between after kept (length output)

  -- `_truncate_read_file_output`
  unfoldable pub truncate_read_file_output : List A → List A → List A → ℕ → List A → List A
  unfolding head_truncated head_marker
  truncate_read_file_output before between after max_chars output =
      if max_chars == 0
      then output
      else if leb (length output) max_chars
      then output
      else head_truncated before between after
          (kept_chars max_chars (head_marker before between after (length output) (length output)))
          max_chars output

  -- `_truncate_ls_output`, which differs in the texts
  abbrev pub truncate_ls_output : List A → List A → List A → ℕ → List A → List A
  truncate_ls_output = truncate_read_file_output
