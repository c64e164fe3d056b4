-- ===== src/Memory/Facts.antt =====
-- packages/harness/deerflow/agents/memory/updater.py: the memory, and how an update changes it
-- (`_apply_updates`). Confidences are natural numbers, of which only the order is used. `strip` and
-- `casefold` are those of `str`. The id that is made for a new fact is given with it.
pub mod Keys
pub mod Limit
use deer_seek_backend.Prelude.{
  ℕ, String, Bool, true, false, not, ◌&&◌, Option, none, some, List, [], ◌∷◌, ◌++◌, map, ◌==◌,
  string_eq, keep, contains, take, length, leb, ltb, sorted_reverse, if◌then◌else◌,
}
use deer_seek_backend.Dict.{Dict, get, put}

pub record Summary : Type 0 where
  pub summary : String
  pub updated_at : ℕ

-- `none` is an id that is missing, or a content that is not a string.
pub record Fact : Type 0 where
  pub id : Option String
  pub content : Option String
  pub category : String
  pub confidence : ℕ
  pub created_at : ℕ
  pub source : String
  pub source_error : Option String

pub record Memory : Type 0 where
  pub version : String
  pub last_updated : ℕ
  pub user : Dict String Summary
  pub history : Dict String Summary
  pub facts : List Fact

-- What `FileMemoryStorage.save` writes, at the time `now`.
abbrev pub stamped : ℕ → Memory → Memory
stamped now m = record m { last_updated = now }

pub record NewFact : Type 0 where
  pub content : Option String
  pub category : String
  pub confidence : ℕ
  pub source_error : Option String

-- What an update says of a section.
pub record SectionData : Type 0 where
  pub should_update : Bool
  pub summary : String

pub record UpdateData : Type 0 where
  pub user : Dict String SectionData
  pub history : Dict String SectionData
  pub new_facts : List (String × NewFact)
  pub facts_to_remove : List String

pub record Config : Type 0 where
  pub max_facts : ℕ
  pub fact_confidence_threshold : ℕ

abbrev pub user_sections : List String
user_sections = "workContext" ∷ "personalContext" ∷ "topOfMind" ∷ []

abbrev pub history_sections : List String
history_sections = "recentMonths" ∷ "earlierContext" ∷ "longTermBackground" ∷ []

unfoldable pub update_section :
    ℕ → String → Option SectionData → Dict String Summary → Dict String Summary
update_section now section none sections = sections
update_section now section (some d) sections =
    if d.should_update && not (d.summary == "")
    then put sections section (record { summary = d.summary; updated_at = now })
    else sections

unfoldable pub update_sections :
    ℕ → List String → Dict String SectionData → Dict String Summary → Dict String Summary
unfolding update_section
update_sections now [] updates sections = sections
update_sections now (s ∷ ss) updates sections =
    update_sections now ss updates (update_section now s (get updates s) sections)

unfoldable pub is_removed : List String → Option String → Bool
is_removed ids none = false
is_removed ids (some i) = contains i ids

abbrev pub remove_facts : List String → List Fact → List Fact
remove_facts ids = keep (λ f. not (is_removed ids f.id))

unfoldable pub add_key : Option String → List String → List String
add_key none ks = ks
add_key (some k) ks = k ∷ ks

unfoldable pub is_known : Option String → List String → Bool
is_known none ks = false
is_known (some k) ks = contains k ks

unfoldable pub enforce_limit : ℕ → List Fact → List Fact
enforce_limit max facts =
    if ltb max (length facts) then take max (sorted_reverse (λ f. f.confidence) facts) else facts

module _ (strip casefold : String → String) where
  unfoldable pub key_of : String → Option String
  key_of stripped = if stripped == "" then none else some (casefold stripped)

  -- `_fact_content_key`
  unfoldable pub fact_content_key : Option String → Option String
  unfolding key_of
  fact_content_key none = none
  fact_content_key (some content) = key_of (strip content)

  unfoldable pub fact_keys : List Fact → List String
  unfolding fact_content_key add_key
  fact_keys [] = []
  fact_keys (f ∷ fs) = add_key (fact_content_key f.content) (fact_keys fs)

  unfoldable pub stripped_error : Option String → Option String
  stripped_error none = none
  stripped_error (some e) = if strip e == "" then none else some (strip e)

  unfoldable pub fact_entry : ℕ → Option String → String → String → NewFact → Fact
  unfolding stripped_error
  fact_entry now thread_id id content f = record {
    id = some id;
    content = some content;
    category = f.category;
    confidence = f.confidence;
    created_at = now;
    source = elim thread_id [ none ↦ "unknown" | some t ↦ if t == "" then "unknown" else t ];
    source_error = stripped_error f.source_error;
  }

  module _ (c : Config) (now : ℕ) (thread_id : Option String) where
    -- A new fact with a content, of whose key it is known whether it is there.
    unfoldable pub add_content :
        String → String → NewFact → List Fact × List String → List Fact × List String
    unfolding fact_content_key is_known add_key fact_entry
    add_content id content f (facts, keys) =
        let key = fact_content_key (some content) in
        if is_known key keys
        then (facts, keys)
        else (facts ++ fact_entry now thread_id id content f ∷ [], add_key key keys)

    unfoldable pub add_fact :
        String → NewFact → Option String → List Fact × List String → List Fact × List String
    unfolding add_content
    add_fact id f none s = s
    add_fact id f (some content) s =
        if leb c.fact_confidence_threshold f.confidence
        then add_content id (strip content) f s
        else s

    unfoldable pub add_facts :
        List (String × NewFact) → List Fact × List String → List Fact × List String
    unfolding add_fact
    add_facts [] s = s
    add_facts ((id, f) ∷ fs) s = add_facts fs (add_fact id f f.content s)

    -- `_apply_updates`, on the facts
    unfoldable pub updated_facts : UpdateData → List Fact → List Fact
    unfolding add_facts fact_keys enforce_limit is_removed
    updated_facts u facts =
        let left = remove_facts u.facts_to_remove facts in
        enforce_limit c.max_facts (add_facts u.new_facts (left, fact_keys left)).0

    unfoldable pub apply_updates : Memory → UpdateData → Memory
    unfolding updated_facts update_sections
    apply_updates m u = record m {
      user = update_sections now user_sections u.user m.user;
      history = update_sections now history_sections u.history m.history;
      facts = updated_facts u m.facts;
    }
