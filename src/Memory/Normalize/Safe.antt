-- ===== src/Memory/Normalize/Safe.antt =====
-- An answer of the model that removes facts loses no new one (updater.py).
use deer_seek_backend.Prelude.{
  ℕ, ◌≡◌, ◌≢◌, refl, ap, ◌∙◌, arith, String, Bool, false, Option, none, some, List, [], ◌∷◌, map,
  Bool-cases, inl, inr,
}
use deer_seek_backend.Memory.Facts.{NewFact}
use deer_seek_backend.Memory.Normalize.{
  Number, RawFact, RawUpdate, Normalized, normalize_fact, normalize_facts, normalize_list,
  normalize_data, collect_fact, none_left, strings_of, or_empty,
}

module _ (strip : String → String) (default_confidence : ℕ)
    (parse_float : String → Option Number) where
  abbrev normal : RawFact → Option NewFact
  normal = normalize_fact strip default_confidence parse_float

  abbrev normals : List RawFact → List NewFact × Bool
  normals = normalize_facts strip default_confidence parse_float

  collected :
      (fs : List RawFact) (o : Option NewFact) (s : List NewFact × Bool)
      → (s.1 ≡ false → map normal fs ≡ map some s.0)
      → (collect_fact o s).1 ≡ false
      → o ∷ map normal fs ≡ map some (collect_fact o s).0
  unfolding collect_fact
  collected fs none s kept whole = cc
  collected fs (some f) s kept whole = ap (λ os. some f ∷ os) (kept whole)

  all_kept : (fs : List RawFact) → (normals fs).1 ≡ false → map normal fs ≡ map some (normals fs).0
  unfolding normalize_facts
  all_kept [] whole = refl
  all_kept (f ∷ fs) whole = collected fs (normal f) (normals fs) (all_kept fs) whole

  -- What the new facts are if none was dropped.
  abbrev Whole : Option (List RawFact) → List NewFact → Type 0
  Whole raw facts = (raw ≢ none) × (map normal (or_empty raw) ≡ map some facts)

  list_kept :
      (raw : Option (List RawFact))
      → (normalize_list strip default_confidence parse_float raw).1 ≡ false
      → Whole raw (normalize_list strip default_confidence parse_float raw).0
  unfolding normalize_list or_empty
  list_kept none whole = cc
  list_kept (some fs) whole = (λ h. cc, all_kept fs whole)

  new_facts_of : Option Normalized → List NewFact
  new_facts_of none = []
  new_facts_of (some r) = r.new_facts

  removed_of : Option Normalized → List String
  removed_of none = []
  removed_of (some r) = r.facts_to_remove

  -- An answer that is accepted and removes facts has a list of new facts, all well formed: each of
  -- them is there, in their order.
  pub removal_is_safe :
      (u : RawUpdate) (r : Normalized)
      → normalize_data strip default_confidence parse_float u ≡ some r
      → none_left r.facts_to_remove ≡ false
      → (u.new_facts ≢ none) × (map normal (or_empty u.new_facts) ≡ map some r.new_facts)
  unfolding normalize_data new_facts_of removed_of
  removal_is_safe u r accepted removes =
      let raw = normalize_list strip default_confidence parse_float u.new_facts in
      let removed = strings_of (or_empty u.facts_to_remove) in
      elim (Bool-cases raw.1) [
        | inl dropped ↦ absurd (ground (arith, accepted, removes, dropped))
        | inr whole ↦
            let eq : raw.0 ≡ r.new_facts = ground (arith, accepted, whole) in
            let kept = list_kept u.new_facts whole in (kept.0, kept.1 ∙ ap (map some) eq)
      ]
