-- ===== src/Subagents/Captures.antt =====
-- The messages that a subagent's worker captures (executor.py).
use deer_seek_backend.Prelude.{
  ◌≡◌, ◌∙◌, refl, sym, ap, arith, String, Bool, true, false, not, ◌&&◌, ◌||◌, Option, none, some,
  List, [], ◌∷◌, ◌++◌, append-nil, append_assoc, ◌==◌, any, contains, Eq, string_eq, option_eq,
  beq_refl, Bool-cases, Option-cases, inl, inr,
}
use deer_seek_backend.Subagents.Worker.{
  AiMessage, Message, ai, other, last_message, has_id, is_duplicate, capture,
}
use deer_seek_backend.Subagents.Outcome.{captured}

-- Whether two ids are there and the same; the empty text is no id.
same_id : Option String → Option String → Bool
same_id (some i) (some j) = i == j && not (j == "")
same_id _ _ = false

same_id-none : (o : Option String) → same_id o none ≡ false
unfolding same_id
same_id-none none = refl
same_id-none (some i) = refl

same_id_empty : (o : Option String) (i : String) → (i == "") ≡ true → same_id o (some i) ≡ false
unfolding same_id
same_id_empty none i h = refl
same_id_empty (some j) i h = ground (arith, h)

module _ {J : Type 0} ⦃e : Eq (AiMessage J)⦄ where
  -- Whether two messages are equal or have the same id.
  unfoldable pub same : AiMessage J → AiMessage J → Bool
  unfolding same_id
  same m n = m == n || same_id m.id n.id

  -- Whether no two of the messages are equal or have the same id.
  abbrev pub NoneTwice : List (AiMessage J) → Type 0
  NoneTwice [] = Unit
  NoneTwice (m ∷ ms) = (any (same m) ms ≡ false) × NoneTwice ms

  contains-same :
      (m : AiMessage J) (ms : List (AiMessage J))
      → ((n : AiMessage J) → same_id n.id m.id ≡ false)
      → contains m ms ≡ any (λ n. same n m) ms
  unfolding same
  contains-same m [] h = refl
  contains-same m (n ∷ ms) h =
      ground (arith, h n, contains-same m ms h, e.beq_iff n m, e.beq_iff m n)

  same_named :
      (i : String) (m n : AiMessage J) → (i == "") ≡ false → m.id ≡ some i → same n m ≡ has_id i n
  unfolding same same_id has_id
  same_named i m n named own = elim (Bool-cases (n == m)) [
    | inl eq ↦
        let id_of : n.id ≡ some i = ap (λ (x : AiMessage J). x.id) ((e.beq_iff n m).0 eq) ∙ own in
        rw (eq, id_of) (sym (beq_refl i))
    | inr ne ↦ elim (Option-cases n.id) [
      | inl missing ↦ rw (ne, missing) refl
      | inr (j, there) ↦ rw (ne, there, own) (rw named (ground (arith)))
    ]
  ]

  any_named :
      (i : String) (m : AiMessage J) (ms : List (AiMessage J))
      → (i == "") ≡ false
      → m.id ≡ some i
      → any (has_id i) ms ≡ any (λ n. same n m) ms
  any_named i m [] named own = refl
  any_named i m (n ∷ ms) named own =
      rw (same_named i m n named own) (ap (λ b. has_id i n || b) (any_named i m ms named own))

  duplicate_same :
      (id : Option String) (m : AiMessage J) (ms : List (AiMessage J))
      → m.id ≡ id
      → is_duplicate m id ms ≡ any (λ n. same n m) ms
  unfolding is_duplicate
  duplicate_same none m ms own = contains-same m ms (λ n. ap (same_id n.id) own ∙ same_id-none n.id)
  duplicate_same (some i) m ms own = elim (Bool-cases (i == "")) [
    | inl unnamed ↦
        rw unnamed (contains-same m ms (λ n. ap (same_id n.id) own ∙ same_id_empty n.id i unnamed))
    | inr named ↦ rw named (any_named i m ms named own)
  ]

  any_snoc :
      (p : AiMessage J → Bool) (ms : List (AiMessage J)) (m : AiMessage J)
      → any p (ms ++ m ∷ []) ≡ (any p ms || p m)
  any_snoc p [] m = ground arith
  any_snoc p (n ∷ ms) m = ground (arith, any_snoc p ms m)

  pub NoneTwice-snoc :
      (ms : List (AiMessage J)) (m : AiMessage J)
      → NoneTwice ms
      → any (λ n. same n m) ms ≡ false
      → NoneTwice (ms ++ m ∷ [])
  NoneTwice-snoc [] m h new = (refl, tt)
  NoneTwice-snoc (n ∷ ms) m h new = (
    ground (arith, any_snoc (same n) ms m, h.0, new),
    NoneTwice-snoc ms m h.1 (ground (arith, new)),
  )

  capture-NoneTwice :
      (o : Option (Message J)) (ms : List (AiMessage J)) → NoneTwice ms → NoneTwice (capture o ms)
  unfolding capture
  capture-NoneTwice none ms h = h
  capture-NoneTwice (some (other c)) ms h = h
  capture-NoneTwice (some (ai m)) ms h = elim (Bool-cases (is_duplicate m m.id ms)) [
    | inl old ↦ rw old h
    | inr new ↦ rw new (NoneTwice-snoc ms m h (sym (duplicate_same m.id m ms refl) ∙ new))
  ]

  pub captured-NoneTwice :
      {U : Type 0} (cs : List (List (Message J) × List U)) (ms : List (AiMessage J))
      → NoneTwice ms
      → NoneTwice (captured cs ms)
  captured-NoneTwice [] ms h = h
  captured-NoneTwice (c ∷ cs) ms h =
      captured-NoneTwice cs (capture (last_message c.0) ms)
        (capture-NoneTwice (last_message c.0) ms h)

  -- Whatever is there before a capture is there after it.
  capture-keeps :
      (p : AiMessage J → Bool) (o : Option (Message J)) (ms : List (AiMessage J))
      → any p ms ≡ true
      → any p (capture o ms) ≡ true
  unfolding capture
  capture-keeps p none ms h = h
  capture-keeps p (some (other c)) ms h = h
  capture-keeps p (some (ai m)) ms h = elim (Bool-cases (is_duplicate m m.id ms)) [
    | inl old ↦ rw old h
    | inr new ↦ rw new (ground (arith, any_snoc p ms m, h))
  ]

  captured-keeps :
      {U : Type 0} (p : AiMessage J → Bool) (cs : List (List (Message J) × List U))
      (ms : List (AiMessage J))
      → any p ms ≡ true
      → any p (captured cs ms) ≡ true
  captured-keeps p [] ms h = h
  captured-keeps p (c ∷ cs) ms h =
      captured-keeps p cs (capture (last_message c.0) ms) (capture-keeps p (last_message c.0) ms h)

  same_self : (m : AiMessage J) → same m m ≡ true
  unfolding same
  same_self m = rw (beq_refl m) refl

  capture-takes :
      (m : AiMessage J) (ms : List (AiMessage J))
      → any (λ n. same n m) (capture (some (ai m)) ms) ≡ true
  unfolding capture
  capture-takes m ms = elim (Bool-cases (is_duplicate m m.id ms)) [
    | inl old ↦ rw old (sym (duplicate_same m.id m ms refl) ∙ old)
    | inr new ↦ rw new (any_snoc (λ n. same n m) ms m ∙ ground (arith, same_self m))
  ]

  last_message_snoc :
      (before : List (Message J)) (m : Message J) → last_message (before ++ m ∷ []) ≡ some m
  unfolding last_message
  last_message_snoc [] m = refl
  last_message_snoc (n ∷ []) m = refl
  last_message_snoc (n ∷ n' ∷ before) m = last_message_snoc (n' ∷ before) m

  pub captured-takes :
      {U : Type 0} (cs ds : List (List (Message J) × List U)) (before : List (Message J))
      (m : AiMessage J) (usage : List U) (ms : List (AiMessage J))
      → any (λ n. same n m) (captured (cs ++ (before ++ ai m ∷ [], usage) ∷ ds) ms) ≡ true
  captured-takes [] ds before m usage ms =
      captured-keeps (λ n. same n m) ds (capture (last_message (before ++ ai m ∷ [])) ms)
        (rw (last_message_snoc before (ai m)) (capture-takes m ms))
  captured-takes (c ∷ cs) ds before m usage ms =
      captured-takes cs ds before m usage (capture (last_message c.0) ms)

  capture-extends :
      (o : Option (Message J)) (ms : List (AiMessage J))
      → (new : List (AiMessage J)) × (capture o ms ≡ ms ++ new)
  unfolding capture
  capture-extends none ms = ([], sym (append-nil ms))
  capture-extends (some (other c)) ms = ([], sym (append-nil ms))
  capture-extends (some (ai m)) ms = elim (Bool-cases (is_duplicate m m.id ms)) [
    | inl old ↦ rw old ([], sym (append-nil ms))
    | inr new ↦ rw new (m ∷ [], refl)
  ]

  -- What was captured before stays in front.
  pub captured-extends :
      {U : Type 0} (cs : List (List (Message J) × List U)) (ms : List (AiMessage J))
      → (new : List (AiMessage J)) × (captured cs ms ≡ ms ++ new)
  captured-extends [] ms = ([], sym (append-nil ms))
  captured-extends (c ∷ cs) ms =
      let (first, e) = capture-extends (last_message c.0) ms in
      let (more, e') = captured-extends cs (capture (last_message c.0) ms) in
      (first ++ more, e' ∙ ap (λ xs. xs ++ more) e ∙ append_assoc ms first more)
