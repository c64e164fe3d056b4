-- ===== src/Memory/Edits.antt =====
-- packages/harness/deerflow/agents/memory/updater.py: the edits of single facts by hand. Whether the
-- storage saves the memory, and at what time, is an argument of an edit. Confidences are in units of which `one` make 1.
pub mod Laws
pub mod Kept
use deer_seek_backend.Prelude.{
  ℕ, String, Bool, true, false, not, Option, none, some, List, [], ◌∷◌, ◌++◌, ◌==◌, string_eq,
  option_eq, nat_eq, keep, any, length, leb, if◌then◌else◌,
}
use deer_seek_backend.Memory.Facts.{Fact, Memory, stamped}
use deer_seek_backend.Memory.Normalize.{Number, finite, not_finite}

-- What an edit comes to: the memory that it answers and the one that the storage has then, or an error.
pub data Edited : Type 0 where
  saved : Memory → Memory → Edited
  value_error key_error os_error : Edited

-- `_save_memory_to_file`, which saves at a time or fails, and the answer.
unfoldable pub persist : Option ℕ → Memory → Edited
persist none m = os_error
persist (some at) m = saved m (stamped at m)

abbrev pub has_id : String → Fact → Bool
has_id id f = f.id == some id

unfoldable pub persist_left : Option ℕ → Memory → List Fact → Edited
unfolding persist
persist_left saves m left =
    if length left == length m.facts then key_error else persist saves (record m { facts = left })

unfoldable pub delete_memory_fact : Option ℕ → String → Memory → Edited
unfolding persist_left
delete_memory_fact saves id m = persist_left saves m (keep (λ f. not (has_id id f)) m.facts)

unfoldable pub also : Fact → Option (List Fact) → Option (List Fact)
also f none = none
also f (some fs) = some (f ∷ fs)

unfoldable pub put_confidence : Option ℕ → Fact → Option Fact
put_confidence none f = none
put_confidence (some n) f = some (record f { confidence = n })

unfoldable pub put_edited : Option Fact → Option (List Fact) → Option (List Fact)
unfolding also
put_edited none fs = none
put_edited (some f) fs = also f fs

module _ (strip : String → String) (one : ℕ) where
  unfoldable pub validate_confidence : Number → Option ℕ
  validate_confidence (finite n) = if leb n one then some n else none
  validate_confidence not_finite = none

  unfoldable pub or_context : String → String
  or_context category = if strip category == "" then "context" else strip category

  unfoldable pub append_fact : Option ℕ → String → ℕ → String → String → Option ℕ → Memory → Edited
  unfolding persist
  append_fact saves id now content category none m = value_error
  append_fact saves id now content category (some n) m = persist saves (record m {
    facts =
        m.facts
        ++ record {
          id = some id;
          content = some content;
          category = category;
          confidence = n;
          created_at = now;
          source = "manual";
          source_error = none;
        }
          ∷ [];
  })

  -- `id` is the id that is made for the fact.
  unfoldable pub create_memory_fact :
      Option ℕ → String → ℕ → String → String → Number → Memory → Edited
  unfolding append_fact validate_confidence or_context
  create_memory_fact saves id now content category confidence m =
      if strip content == ""
      then value_error
      else append_fact saves id now (strip content) (or_context category)
          (validate_confidence confidence) m

  unfoldable pub edit_content : Option String → Fact → Option Fact
  edit_content none f = some f
  edit_content (some content) f =
      if strip content == "" then none else some (record f { content = some (strip content) })

  unfoldable pub edit_category : Option String → Fact → Fact
  unfolding or_context
  edit_category none f = f
  edit_category (some category) f = record f { category = or_context category }

  unfoldable pub edit_confidence : Option Number → Fact → Option Fact
  unfolding validate_confidence put_confidence
  edit_confidence none f = some f
  edit_confidence (some number) f = put_confidence (validate_confidence number) f

  module _ (content category : Option String) (confidence : Option Number) where
    unfoldable pub edit_rest : Option Fact → Option Fact
    unfolding edit_confidence edit_category
    edit_rest none = none
    edit_rest (some f) = edit_confidence confidence (edit_category category f)

    unfoldable pub edit_fact : Fact → Option Fact
    unfolding edit_rest edit_content
    edit_fact f = edit_rest (edit_content content f)

    -- The loop of `update_memory_fact`: `none` is a `ValueError`.
    unfoldable pub edit_facts : String → List Fact → Option (List Fact)
    unfolding edit_fact put_edited also
    edit_facts id [] = some []
    edit_facts id (f ∷ fs) =
        let rest = edit_facts id fs in
        if has_id id f then put_edited (edit_fact f) rest else also f rest

    unfoldable pub persist_edited : Option ℕ → String → Memory → Option (List Fact) → Edited
    unfolding persist
    persist_edited saves id m none = value_error
    persist_edited saves id m (some facts) =
        if any (has_id id) m.facts then persist saves (record m { facts = facts }) else key_error

    unfoldable pub update_memory_fact : Option ℕ → String → Memory → Edited
    unfolding persist_edited edit_facts
    update_memory_fact saves id m = persist_edited saves id m (edit_facts id m.facts)
