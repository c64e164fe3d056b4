-- ===== src/Tests/ThreadTests.antt =====
-- Runs of packages/harness/deerflow/agents/thread_state.py.
use deer_seek_backend.Prelude.{
  ◌≡◌, refl, String, Option, none, some, List, [], ◌∷◌, ◌++◌, dedupe, string_eq,
}
use deer_seek_backend.ThreadState.Artifacts.{merge_updates, all_written, merge_updates-dedupe}

abbrev updates : List (Option (List String))
updates = some ("a" ∷ "b" ∷ []) ∷ none ∷ some ("b" ∷ "c" ∷ "a" ∷ []) ∷ []

three_left : merge_updates [] updates ≡ "a" ∷ "b" ∷ "c" ∷ []
unfolding merge_updates
three_left = refl

merge_updates-dedupe_example :
    merge_updates (dedupe ("a" ∷ [])) updates ≡ dedupe (("a" ∷ []) ++ all_written updates)
merge_updates-dedupe_example = merge_updates-dedupe ("a" ∷ []) updates
