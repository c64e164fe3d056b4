-- ===== src/Memory/Edits/Kept.antt =====
-- What an edit of a fact by hand keeps (updater.py, `update_memory_fact`).
use deer_seek_backend.Prelude.{
  ℕ, ◌≡◌, refl, sym, ap, subst, ◌∙◌, arith, String, Bool, true, false, not, Option, none, some,
  List, [], ◌∷◌, map, ◌==◌, string_eq, option_eq, nat_eq, keep, any, if◌then◌else◌, Bool-cases, inl,
  inr,
}
use deer_seek_backend.Memory.Facts.{Fact, Memory, stamped}
use deer_seek_backend.Memory.Normalize.{Number}
use deer_seek_backend.Memory.Edits.{
  saved, key_error, persist, has_id, also, validate_confidence, edit_fact, put_edited, edit_facts,
  persist_edited, update_memory_fact, edit_content, edit_category, edit_confidence, edit_rest,
  put_confidence,
}
use deer_seek_backend.Memory.Edits.Laws.{stored_of}

-- Whether two memories differ in one fact only, where only its content, category and confidence may.
pub record OneEdited (id : String) (m m' : Memory) : Type 0 where
  pub ids : map (λ (f : Fact). f.id) m'.facts ≡ map (λ (f : Fact). f.id) m.facts
  pub others : keep (λ f. not (has_id id f)) m'.facts ≡ keep (λ f. not (has_id id f)) m.facts
  pub user : m'.user ≡ m.user
  pub history : m'.history ≡ m.history
  pub version : m'.version ≡ m.version

-- Whether a fact has the id of another.
abbrev SameId : Fact → Option Fact → Type 0
SameId f none = Unit
SameId f (some g) = g.id ≡ f.id

if-SameId :
    (f : Fact) (b : Bool) (o p : Option Fact)
    → SameId f o
    → SameId f p
    → SameId f (if b then o else p)
if-SameId f true o p h k = h
if-SameId f false o p h k = k

module _ (strip : String → String) (one : ℕ) where
  put_confidence-SameId : (f g : Fact) (o : Option ℕ) → g.id ≡ f.id → SameId f (put_confidence o g)
  unfolding put_confidence
  put_confidence-SameId f g none h = tt
  put_confidence-SameId f g (some n) h = h

  edit_category-id :
      (category : Option String) (g : Fact) → (edit_category strip one category g).id ≡ g.id
  unfolding edit_category
  edit_category-id none g = refl
  edit_category-id (some c) g = refl

  edit_confidence-SameId :
      (f g : Fact) (confidence : Option Number)
      → g.id ≡ f.id
      → SameId f (edit_confidence strip one confidence g)
  unfolding edit_confidence
  edit_confidence-SameId f g none h = h
  edit_confidence-SameId f g (some n) h =
      put_confidence-SameId f g (validate_confidence strip one n) h

  edit_content-SameId :
      (f : Fact) (content : Option String) → SameId f (edit_content strip one content f)
  unfolding edit_content
  edit_content-SameId f none = refl
  edit_content-SameId f (some c) =
      if-SameId f (strip c == "") none (some (record f { content = some (strip c) })) tt refl

module _ (strip : String → String) (one : ℕ) (content category : Option String)
    (confidence : Option Number) where
  edit_rest-SameId :
      (f : Fact) (o : Option Fact)
      → SameId f o
      → SameId f (edit_rest strip one content category confidence o)
  unfolding edit_rest
  edit_rest-SameId f none h = tt
  edit_rest-SameId f (some g) h =
      edit_confidence-SameId strip one f (edit_category strip one category g) confidence
        (edit_category-id strip one category g ∙ h)

  edit_fact-SameId : (f : Fact) → SameId f (edit_fact strip one content category confidence f)
  unfolding edit_fact
  edit_fact-SameId f =
      edit_rest-SameId f (edit_content strip one content f)
        (edit_content-SameId strip one f content)

  -- The ids of the facts stay, and so do all facts with other ids.
  abbrev Kept : String → List Fact → Option (List Fact) → Type 0
  Kept id fs none = Unit
  Kept id fs (some gs) =
      (map (λ (f : Fact). f.id) gs ≡ map (λ (f : Fact). f.id) fs)
      × (keep (λ f. not (has_id id f)) gs ≡ keep (λ f. not (has_id id f)) fs)

  also-Kept :
      (id : String) (f g : Fact) (fs : List Fact) (o : Option (List Fact))
      → g.id ≡ f.id
      → (has_id id f ≡ false → g ≡ f)
      → Kept id fs o
      → Kept id (f ∷ fs) (also g o)
  unfolding also
  also-Kept id f g fs none same other h = tt
  also-Kept id f g fs (some gs) same other (ids, rest) = (
    ap (λ i. i ∷ map (λ (h : Fact). h.id) gs) same ∙ ap (λ is. f.id ∷ is) ids,
    elim (Bool-cases (has_id id f)) [
      | inl own ↦
          ap
            (λ i.
              if not (i == some id)
              then g ∷ keep (λ h. not (has_id id h)) gs
              else keep (λ h. not (has_id id h)) gs)
            same
          ∙ rw own rest
      | inr apart ↦
          ap (λ h. keep (λ k. not (has_id id k)) (h ∷ gs)) (other apart)
          ∙ rw apart (ap (λ hs. f ∷ hs) rest)
    ],
  )

  put_edited-Kept :
      (id : String) (f : Fact) (fs : List Fact) (e : Option Fact) (o : Option (List Fact))
      → has_id id f ≡ true
      → SameId f e
      → Kept id fs o
      → Kept id (f ∷ fs) (put_edited e o)
  unfolding put_edited
  put_edited-Kept id f fs none o own same h = tt
  put_edited-Kept id f fs (some g) o own same h = also-Kept id f g fs o same (λ other. cc) h

  edit_facts-Kept :
      (id : String) (fs : List Fact)
      → Kept id fs (edit_facts strip one content category confidence id fs)
  unfolding edit_facts
  edit_facts-Kept id [] = (refl, refl)
  edit_facts-Kept id (f ∷ fs) = elim (Bool-cases (has_id id f)) [
    | inl own ↦ rw own (
        put_edited-Kept id f fs (edit_fact strip one content category confidence f) _ own
          (edit_fact-SameId f) (edit_facts-Kept id fs))
    | inr other ↦ rw other (also-Kept id f f fs _ refl (λ h. refl) (edit_facts-Kept id fs))
  ]

  persisted-OneEdited :
      (saves : Option ℕ) (id : String) (m m' stored : Memory) (o : Option (List Fact))
      → Kept id m.facts o
      → persist_edited strip one content category confidence saves id m o ≡ saved m' stored
      → OneEdited id m stored
  unfolding persist_edited persist stored_of
  persisted-OneEdited saves id m m' stored none h done = absurd cc
  persisted-OneEdited (some at) id m m' stored (some gs) (ids, others) done =
      elim (Bool-cases (any (has_id id) m.facts)) [
        | inl there ↦
            let edited = record m { facts = gs } in
            let eq : stamped at edited ≡ stored = ap (stored_of m) (
              sym (ap (λ b. if b then saved edited (stamped at edited) else key_error) there)
              ∙ done) in
            subst (OneEdited id m) eq
              (record { ids = ids; others = others; user = refl; history = refl; version = refl })
        | inr missing ↦ absurd (ground (arith, done, missing))
      ]
  persisted-OneEdited none id m m' stored (some gs) h done = absurd (ground (arith, done))

  -- An edit that is saved keeps the facts' ids and order, all other facts, and the summaries.
  pub update_memory_fact-OneEdited :
      (saves : Option ℕ) (id : String) (m m' stored : Memory)
      → update_memory_fact strip one content category confidence saves id m ≡ saved m' stored
      → OneEdited id m stored
  unfolding update_memory_fact
  update_memory_fact-OneEdited saves id m m' stored done =
      persisted-OneEdited saves id m m' stored
        (edit_facts strip one content category confidence id m.facts) (edit_facts-Kept id m.facts)
        done
