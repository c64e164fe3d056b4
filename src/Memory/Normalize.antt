-- ===== src/Memory/Normalize.antt =====
-- packages/harness/deerflow/agents/memory/updater.py: how the model's answer is brought into shape
-- (`_normalize_memory_update_data`). `strip` is that of `str`; `parse_float` is what `float` makes of a
-- string, if it does not raise.
pub mod Safe
use deer_seek_backend.Prelude.{
  ℕ, suc, ◌≡◌, ◌≢◌, refl, sym, ap, ◌∙◌, arith, String, Bool, true, false, not, ◌&&◌, Option, none,
  some, List, [], ◌∷◌, ◌++◌, map, ◌==◌, string_eq, length, if◌then◌else◌,
}
use deer_seek_backend.Dict.{Dict}
use deer_seek_backend.Memory.Facts.{NewFact, SectionData}

pub data Number : Type 0 where
  finite : ℕ → Number
  not_finite : Number

-- A value of the JSON object.
pub data Value : Type 0 where
  text : String → Value
  number : Number → Value
  boolean : Bool → Value
  neither : Value

-- A fact as the model wrote it.
pub data RawFact : Type 0 where
  not_a_dict : RawFact
  dict : Option Value → Option Value → Option Value → Option Value → RawFact

pub record RawUpdate : Type 0 where
  pub user : Option (Dict String SectionData)
  pub history : Option (Dict String SectionData)
  pub new_facts : Option (List RawFact)
  pub facts_to_remove : Option (List Value)

pub record Normalized : Type 0 where
  pub user : Dict String SectionData
  pub history : Dict String SectionData
  pub new_facts : List NewFact
  pub facts_to_remove : List String

unfoldable pub finite_only : Option Number → Option ℕ
finite_only (some (finite n)) = some n
finite_only _ = none

unfoldable pub or_empty : {A : Type 0} → Option (List A) → List A
or_empty none = []
or_empty (some xs) = xs

unfoldable pub strings_of : List Value → List String
strings_of [] = []
strings_of (text s ∷ vs) = s ∷ strings_of vs
strings_of (_ ∷ vs) = strings_of vs

unfoldable pub none_left : List String → Bool
none_left [] = true
none_left (s ∷ ss) = false

-- The facts that are kept, and whether one was dropped.
unfoldable pub collect_fact : Option NewFact → List NewFact × Bool → List NewFact × Bool
collect_fact none (facts, dropped) = (facts, true)
collect_fact (some f) (facts, dropped) = (f ∷ facts, dropped)

module _ (strip : String → String) where
  -- The stripped text, if it is one that is not empty.
  unfoldable pub clean_text : Option Value → Option String
  clean_text (some (text s)) = if strip s == "" then none else some (strip s)
  clean_text _ = none

  unfoldable pub category_of : Option String → String
  category_of none = "context"
  category_of (some s) = s

  module _ (default_confidence : ℕ) (parse_float : String → Option Number) where
    unfoldable pub confidence_of : Option Value → Option ℕ
    unfolding finite_only
    confidence_of none = some default_confidence
    confidence_of (some (boolean b)) = none
    confidence_of (some (text s)) =
        if strip s == "" then none else finite_only (parse_float (strip s))
    confidence_of (some (number n)) = finite_only (some n)
    confidence_of (some neither) = none

    unfoldable pub with_confidence :
        String → Option Value → Option Value → Option ℕ → Option NewFact
    unfolding clean_text category_of
    with_confidence content category source_error none = none
    with_confidence content category source_error (some n) = some record {
      content = some content;
      category = category_of (clean_text category);
      confidence = n;
      source_error = clean_text source_error;
    }

    unfoldable pub with_content :
        Option String → Option Value → Option Value → Option Value → Option NewFact
    unfolding with_confidence confidence_of
    with_content none category confidence source_error = none
    with_content (some content) category confidence source_error =
        with_confidence content category source_error (confidence_of confidence)

    -- `_normalize_memory_update_fact`
    unfoldable pub normalize_fact : RawFact → Option NewFact
    unfolding with_content clean_text
    normalize_fact not_a_dict = none
    normalize_fact (dict content category confidence source_error) =
        with_content (clean_text content) category confidence source_error

    unfoldable pub normalize_facts : List RawFact → List NewFact × Bool
    unfolding normalize_fact collect_fact
    normalize_facts [] = ([], false)
    normalize_facts (f ∷ fs) = collect_fact (normalize_fact f) (normalize_facts fs)

    unfoldable pub normalize_list : Option (List RawFact) → List NewFact × Bool
    unfolding normalize_facts
    normalize_list none = ([], true)
    normalize_list (some fs) = normalize_facts fs

    -- `none` is the `JSONDecodeError` of an unsafe partial update.
    unfoldable pub normalize_data : RawUpdate → Option Normalized
    unfolding normalize_list strings_of none_left or_empty
    normalize_data u =
        let (facts, dropped) = normalize_list u.new_facts in
        let removed = strings_of (or_empty u.facts_to_remove) in
        if not (none_left removed) && dropped
        then none
        else some record {
          user = or_empty u.user;
          history = or_empty u.history;
          new_facts = facts;
          facts_to_remove = removed;
        }
