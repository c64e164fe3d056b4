-- ===== src/Tests/FactTests.antt =====
-- Runs of packages/harness/deerflow/agents/memory/updater.py. No text here has outer white space or
-- capitals.
use deer_seek_backend.Prelude.{
  ◌≤◌, ◌≡◌, ◌≢◌, refl, arith, String, false, Option, none, some, [], ◌∷◌, map, length, string_eq,
  option_eq,
}
use deer_seek_backend.Memory.Facts.{
  Fact, Memory, stamped, NewFact, UpdateData, Config, apply_updates,
}
use deer_seek_backend.Memory.Facts.Limit.{apply_updates-bounded}
use deer_seek_backend.Memory.Facts.Keys.{NoRepeats, apply_updates-NoRepeats}
use deer_seek_backend.Memory.Normalize.{
  Number, finite, text, number, dict, RawUpdate, Normalized, normalize_fact, normalize_data,
  normalize_list, normalize_facts, with_content, with_confidence, confidence_of, clean_text,
  category_of, collect_fact, finite_only, or_empty, strings_of, none_left,
}
use deer_seek_backend.Memory.Normalize.Safe.{removal_is_safe}
use deer_seek_backend.Memory.Edits.{
  saved, persist, delete_memory_fact, append_fact, create_memory_fact, validate_confidence,
  or_context, update_memory_fact, edit_facts, edit_fact, edit_rest, edit_content, edit_category,
  edit_confidence, put_edited, persist_edited, also,
}
use deer_seek_backend.Memory.Edits.Laws.{delete-create}

abbrev as_is : String → String
as_is s = s

abbrev tea : Fact
tea = record {
  id = some "f";
  content = some "likes tea";
  category = "context";
  confidence = 80;
  created_at = 1;
  source = "manual";
  source_error = none;
}

abbrev memory : Memory
memory = record { version = "1.0"; last_updated = 1; user = []; history = []; facts = tea ∷ [] }

abbrev again : NewFact
again = record {
  content = some "likes tea";
  category = "context";
  confidence = 90;
  source_error = none;
}

abbrev update : UpdateData
update = record {
  user = [];
  history = [];
  new_facts = ("g", again) ∷ ("h", record again { content = some "has a cat" }) ∷ [];
  facts_to_remove = [];
}

abbrev config : Config
config = record { max_facts = 100; fact_confidence_threshold = 70 }

apply_updates-bounded_example :
    length (apply_updates as_is as_is config 2 none memory update).facts ≤ 100
apply_updates-bounded_example = apply_updates-bounded as_is as_is config 2 none memory update

memory-NoRepeats : NoRepeats as_is as_is memory.facts
memory-NoRepeats = record { once = λ k. ground arith }

apply_updates-NoRepeats_example :
    NoRepeats as_is as_is (apply_updates as_is as_is config 2 none memory update).facts
apply_updates-NoRepeats_example =
    apply_updates-NoRepeats as_is as_is config 2 none memory update memory-NoRepeats

abbrev raw : RawUpdate
raw = record {
  user = none;
  history = none;
  new_facts = some (dict (some (text "likes tea")) none (some (number (finite 90))) none ∷ []);
  facts_to_remove = some (text "f" ∷ []);
}

abbrev normalized : Normalized
normalized = record { user = []; history = []; new_facts = again ∷ []; facts_to_remove = "f" ∷ [] }

abbrev no_float : String → Option Number
no_float s = none

accepted : normalize_data as_is 50 no_float raw ≡ some normalized
unfolding normalize_data normalize_list normalize_facts normalize_fact with_content with_confidence
    confidence_of clean_text category_of collect_fact finite_only or_empty strings_of none_left
accepted = refl

removes_one : none_left normalized.facts_to_remove ≡ false
unfolding none_left
removes_one = refl

removal_is_safe_example :
    (raw.new_facts ≢ none)
    × (map (normalize_fact as_is 50 no_float) (or_empty raw.new_facts) ≡ map some (again ∷ []))
removal_is_safe_example = removal_is_safe as_is 50 no_float raw normalized accepted removes_one

abbrev with_cat : Memory
with_cat = record memory {
  facts =
      tea
      ∷ record tea { id = some "g"; content = some "has a cat"; confidence = 50; created_at = 3 }
      ∷ [];
}

created :
    create_memory_fact as_is 100 (some 4) "g" 3 "has a cat" "" (finite 50) memory
    ≡ saved with_cat (stamped 4 with_cat)
unfolding create_memory_fact append_fact validate_confidence or_context persist
created = refl

delete-create_example :
    delete_memory_fact (some 9) "g" (stamped 4 with_cat)
    ≡ saved (stamped 4 memory) (stamped 9 memory)
delete-create_example =
    delete-create as_is 100 4 9 "g" 3 "has a cat" "" (finite 50) memory with_cat
      (stamped 4 with_cat) refl created

abbrev with_coffee : Memory
with_coffee = record memory { facts = record tea { content = some "likes coffee" } ∷ [] }

edited :
    update_memory_fact as_is 100 (some "likes coffee") none none (some 5) "f" memory
    ≡ saved with_coffee (stamped 5 with_coffee)
unfolding update_memory_fact edit_facts edit_fact edit_rest edit_content edit_category
    edit_confidence put_edited persist_edited also persist
edited = refl
