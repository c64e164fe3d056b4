-- ===== src/Memory/Edits/Laws.antt =====
-- A fact that is created by hand and deleted again (updater.py).
use deer_seek_backend.Prelude.{
  ℕ, ◌≡◌, refl, ap, subst, ◌∙◌, arith, String, Bool, true, false, not, Option, none, some, List, [],
  ◌∷◌, ◌++◌, ◌==◌, string_eq, option_eq, nat_eq, eqb_iff, keep, keep-append, append-nil, any,
  length, length-append, if◌then◌else◌, Bool-cases, inl, inr, beq_refl,
}
use deer_seek_backend.Memory.Facts.{Fact, Memory, stamped}
use deer_seek_backend.Memory.Normalize.{Number}
use deer_seek_backend.Memory.Edits.{
  Edited, saved, persist, has_id, persist_left, delete_memory_fact, append_fact, create_memory_fact,
  validate_confidence, or_context,
}

keep_all : (p : Fact → Bool) (fs : List Fact) → any p fs ≡ false → keep (λ f. not (p f)) fs ≡ fs
keep_all p [] h = refl
keep_all p (f ∷ fs) h = ground (arith, keep_all p fs)

delete_snoc :
    (at later : ℕ) (id : String) (f : Fact) (m : Memory)
    → any (has_id id) m.facts ≡ false
    → has_id id f ≡ true
    → delete_memory_fact (some later) id (stamped at (record m { facts = m.facts ++ f ∷ [] }))
      ≡ saved (stamped at m) (stamped later m)
unfolding delete_memory_fact persist_left persist
delete_snoc at later id f m fresh own =
    let left : keep (λ g. not (has_id id g)) (m.facts ++ f ∷ []) ≡ m.facts =
      keep-append (λ g. not (has_id id g)) m.facts (f ∷ [])
      ∙ ap (λ b. keep (λ g. not (has_id id g)) m.facts ++ (if not b then f ∷ [] else [])) own
      ∙ append-nil (keep (λ g. not (has_id id g)) m.facts)
      ∙ keep_all (has_id id) m.facts fresh in
    let shorter : (length m.facts == length (m.facts ++ f ∷ [])) ≡ false = ground (
      arith,
      length-append m.facts (f ∷ []),
      eqb_iff (length m.facts) (length (m.facts ++ f ∷ [])),
    ) in
    rw (left, shorter) refl

-- The memory that an edit leaves in the storage.
unfoldable pub stored_of : Memory → Edited → Memory
stored_of m (saved answer stored) = stored
stored_of m _ = m

module _ (strip : String → String) (one : ℕ) where
  append_delete :
      (at later : ℕ) (id : String) (now : ℕ) (content category : String) (n : Option ℕ)
      (m answer stored : Memory)
      → any (has_id id) m.facts ≡ false
      → append_fact strip one (some at) id now content category n m ≡ saved answer stored
      → delete_memory_fact (some later) id stored ≡ saved (stamped at m) (stamped later m)
  unfolding append_fact persist stored_of
  append_delete at later id now content category none m answer stored fresh made = cc
  append_delete at later id now content category (some n) m answer stored fresh made =
      subst (λ x. delete_memory_fact (some later) id x ≡ saved (stamped at m) (stamped later m))
        (ap (stored_of m) made) (delete_snoc at later id _ m fresh (beq_refl (some id)))

  -- A fact that was created under a new id, and saved at a time, can be deleted again from what was
  -- saved: this answers and saves the memory as it was, all of it but the time of the last save.
  pub delete-create :
      (at later : ℕ) (id : String) (now : ℕ) (content category : String) (confidence : Number)
      (m answer stored : Memory)
      → any (has_id id) m.facts ≡ false
      → create_memory_fact strip one (some at) id now content category confidence m
        ≡ saved answer stored
      → delete_memory_fact (some later) id stored ≡ saved (stamped at m) (stamped later m)
  unfolding create_memory_fact
  delete-create at later id now content category confidence m answer stored fresh made =
      elim (Bool-cases (strip content == "")) [
        | inl empty ↦ absurd (ground (arith, made, empty))
        | inr there ↦
            append_delete at later id now (strip content) (or_context strip one category)
              (validate_confidence strip one confidence) m answer stored fresh
              (ground (arith, made, there))
      ]
