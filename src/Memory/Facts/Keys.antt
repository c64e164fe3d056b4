-- ===== src/Memory/Facts/Keys.antt =====
-- The contents of the facts after an update (updater.py): none comes twice.
use deer_seek_backend.Prelude.{
  ℕ, zero, suc, ◌+◌, ◌≤◌, ◌≡◌, refl, arith, String, Bool, false, not, ◌||◌, Option, none, some,
  List, [], ◌∷◌, ◌++◌, ◌==◌, string_eq, eq_iff, contains, keep, take, length, leb, sorted_reverse,
  length-keep-sorted_reverse, if◌then◌else◌, Bool-cases, inl, inr,
}
use deer_seek_backend.Memory.Facts.{
  Fact, Memory, UpdateData, NewFact, Config, enforce_limit, updated_facts, apply_updates,
  is_removed, remove_facts, add_facts, add_fact, add_content, fact_keys, fact_content_key, add_key,
  is_known, fact_entry,
}

length-keep-take :
    (p : Fact → Bool) (n : ℕ) (fs : List Fact) → length (keep p (take n fs)) ≤ length (keep p fs)
length-keep-take p zero fs = omega arith
length-keep-take p (suc n) [] = omega arith
length-keep-take p (suc n) (f ∷ fs) = ground (arith, length-keep-take p n fs)

length-keep-keep :
    (p q : Fact → Bool) (fs : List Fact) → length (keep p (keep q fs)) ≤ length (keep p fs)
length-keep-keep p q [] = omega arith
length-keep-keep p q (f ∷ fs) = ground (arith, length-keep-keep p q fs)

abbrev bit : Bool → ℕ
bit b = if b then 1 else 0

is_key : String → Option String → Bool
is_key k none = false
is_key k (some j) = j == k

module _ (strip casefold : String → String) where
  -- Whether a content, without its outer white space and its case, is `k`.
  unfoldable pub has_key : String → Fact → Bool
  unfolding is_key
  has_key k f = is_key k (fact_content_key strip casefold f.content)

  -- No two facts have the same content, up to outer white space and case.
  pub record NoRepeats (facts : List Fact) : Type 0 where
    pub once : (k : String) → length (keep (has_key k) facts) ≤ 1

  contains-add_key :
      (k : String) (j : Option String) (ks : List String)
      → contains k (add_key j ks) ≡ (is_key k j || contains k ks)
  unfolding add_key is_key
  contains-add_key k none ks = refl
  contains-add_key k (some j) ks = ground (arith, eq_iff j k, eq_iff k j)

  keys_found :
      (k : String) (fs : List Fact)
      → contains k (fact_keys strip casefold fs) ≡ false
      → length (keep (has_key k) fs) ≡ 0
  unfolding fact_keys has_key
  keys_found k [] h = refl
  keys_found k (f ∷ fs) h = ground (
    arith,
    keys_found k fs,
    contains-add_key k (fact_content_key strip casefold f.content) (fact_keys strip casefold fs),
  )

  -- The keys that are kept beside the facts are those of the facts.
  record Tracks (s : List Fact × List String) : Type 0 where
    once : (k : String) → length (keep (has_key k) s.0) ≤ bit (contains k s.1)

  snoc_key :
      (k : String) (fs : List Fact) (f : Fact)
      → length (keep (has_key k) (fs ++ f ∷ [])) ≡ length (keep (has_key k) fs) + bit (has_key k f)
  snoc_key k [] f = ground arith
  snoc_key k (g ∷ fs) f = ground (arith, snoc_key k fs f)

  enforce_limit-NoRepeats :
      (max : ℕ) (fs : List Fact) → NoRepeats fs → NoRepeats (enforce_limit max fs)
  unfolding enforce_limit
  enforce_limit-NoRepeats max fs n = record {
    once = λ k.
        let sorted = sorted_reverse (λ (f : Fact). f.confidence) fs in
        ground (
          arith,
          n.once k,
          length-keep-take (has_key k) max sorted,
          length-keep-sorted_reverse (λ (f : Fact). f.confidence) (has_key k) fs,
        );
  }

  module _ (c : Config) (now : ℕ) (thread_id : Option String) where
    add_key-Tracks :
        (key : Option String) (f : Fact) (s : List Fact × List String)
        → fact_content_key strip casefold f.content ≡ key
        → Tracks s
        → Tracks (if is_known key s.1 then s else (s.0 ++ f ∷ [], add_key key s.1))
    unfolding is_known has_key is_key add_key
    add_key-Tracks none f s own t = record {
      once = λ k. ground (arith, snoc_key k s.0 f, t.once k, own);
    }
    add_key-Tracks (some j) f s own t = elim (Bool-cases (contains j s.1)) [
      | inl known ↦ rw known t
      | inr new ↦ rw new (record {
        once = λ k. ground (arith, snoc_key k s.0 f, t.once k, own, new, eq_iff j k, eq_iff k j);
      })
    ]

    add_content-Tracks :
        (id content : String) (f : NewFact) (s : List Fact × List String)
        → Tracks s
        → Tracks (add_content strip casefold c now thread_id id content f s)
    unfolding add_content fact_entry
    add_content-Tracks id content f s t =
        add_key-Tracks (fact_content_key strip casefold (some content))
          (fact_entry strip casefold now thread_id id content f) s refl t

    add_fact-Tracks :
        (id : String) (f : NewFact) (content : Option String) (s : List Fact × List String)
        → Tracks s
        → Tracks (add_fact strip casefold c now thread_id id f content s)
    unfolding add_fact
    add_fact-Tracks id f none s t = t
    add_fact-Tracks id f (some content) s t =
        elim (Bool-cases (leb c.fact_confidence_threshold f.confidence)) [
          | inl sure ↦ rw sure (add_content-Tracks id (strip content) f s t)
          | inr unsure ↦ rw unsure t
        ]

    add_facts-Tracks :
        (fs : List (String × NewFact)) (s : List Fact × List String)
        → Tracks s
        → Tracks (add_facts strip casefold c now thread_id fs s)
    unfolding add_facts
    add_facts-Tracks [] s t = t
    add_facts-Tracks ((id, f) ∷ fs) s t = add_facts-Tracks fs _ (add_fact-Tracks id f f.content s t)

    -- If no two facts have the same content, up to outer white space and case, then none have after an
    -- update, whatever the model's new facts are.
    pub apply_updates-NoRepeats :
        (m : Memory) (u : UpdateData)
        → NoRepeats m.facts
        → NoRepeats (apply_updates strip casefold c now thread_id m u).facts
    unfolding apply_updates updated_facts
    apply_updates-NoRepeats m u n =
        let left = remove_facts u.facts_to_remove m.facts in
        let start : Tracks (left, fact_keys strip casefold left) = record {
          once = λ k. ground (
            arith,
            keys_found k left,
            n.once k,
            length-keep-keep (has_key k) (λ f. not (is_removed u.facts_to_remove f.id)) m.facts,
          );
        } in
        let added =
          add_facts strip casefold c now thread_id u.new_facts
            (left, fact_keys strip casefold left) in
        let t = add_facts-Tracks u.new_facts (left, fact_keys strip casefold left) start in
        enforce_limit-NoRepeats c.max_facts added.0
          (record { once = λ k. ground (arith, t.once k) })
