-- ===== src/Stream/Resume.antt =====
-- `_resolve_start_offset`: a client that comes back with the id of an event goes on as if it had
-- never left.
use deer_seek_backend.Prelude.{
  ℕ, zero, suc, ◌+◌, ◌-◌, ◌≤◌, ◌<◌, ◌≡◌, refl, ap, ◌∙◌, subst, ltb, List, [], ◌∷◌, none, some,
  arith, length, drop, get_elem?, pair_beq_iff, Bool-cases, inl, inr, string_eq, nat_eq,
}
use deer_seek_backend.Stream.{
  StreamEvent, EventId, RunStream, index_of, resolve_start_offset, caught_up,
}
use deer_seek_backend.Stream.Log.{Numbered, Retains}

module _ {ℓ} {A : Type ℓ} where
  pub get_elem?-drop : (a i : ℕ) (xs : List A) → get_elem? (drop a xs) i ≡ get_elem? xs (a + i)
  get_elem?-drop zero i xs = ground arith
  get_elem?-drop (suc a) i [] = refl
  get_elem?-drop (suc a) i (x ∷ xs) =
      get_elem?-drop a i xs
      ∙ ap (get_elem? (x ∷ xs)) (let e : suc (a + i) ≡ suc a + i = omega arith in e)

module _ {D : Type 0} where
  seq-get :
      (n i : ℕ) (es : List (StreamEvent D)) (e : StreamEvent D)
      → Numbered n es
      → get_elem? es i ≡ some e
      → e.id.1 ≡ n + i
  seq-get n i [] e h g = cc
  seq-get n zero (x ∷ es) e h g = ground (arith, h.0)
  seq-get n (suc i) (x ∷ es) e h g = omega (arith, seq-get (suc n) i es e h.1 g)

  index_of-get :
      (n i : ℕ) (es : List (StreamEvent D)) (e : StreamEvent D)
      → Numbered n es
      → get_elem? es i ≡ some e
      → index_of e.id es ≡ some i
  unfolding index_of
  index_of-get n i [] e h g = cc
  index_of-get n zero (x ∷ es) e h g = ground (arith, pair_beq_iff x.id e.id)
  index_of-get n (suc i) (x ∷ es) e h g = ground (
    arith,
    pair_beq_iff x.id e.id,
    index_of-get (suc n) i es e h.1 g,
    seq-get (suc n) i es e h.1 g,
    h.0,
  )

  index_of_below :
      (n : ℕ) (es : List (StreamEvent D)) (i : EventId)
      → Numbered n es
      → i.1 < n
      → index_of i es ≡ none
  unfolding index_of
  index_of_below n [] i h g = refl
  index_of_below n (x ∷ es) i h g =
      ground (arith, pair_beq_iff x.id i, index_of_below (suc n) es i h.1 (omega arith), h.0)

  Numbered-drop :
      (n a : ℕ) (es : List (StreamEvent D))
      → Numbered n es
      → a ≤ length es
      → Numbered (n + a) (drop a es)
  Numbered-drop n zero es h le = let e : n ≡ n + 0 = omega arith in subst (λ k. Numbered k es) e h
  Numbered-drop n (suc a) [] h le = tt
  Numbered-drop n (suc a) (x ∷ es) h le =
      let e : suc n + a ≡ n + suc a = omega arith in
      subst (λ k. Numbered k (drop a es)) e (Numbered-drop (suc n) a es h.1 (omega arith))

pub get-events :
    {D : Type 0} {maxsize : ℕ} {hist : List (StreamEvent D)} {s : RunStream D}
    → Retains maxsize hist s
    → (i : ℕ) → get_elem? s.events i ≡ get_elem? hist (s.start_offset + i)
get-events {hist = hist} {s = s} r i = rw r.window (get_elem?-drop s.start_offset i hist)

module _ {D : Type 0} {maxsize : ℕ} {hist : List (StreamEvent D)} {s : RunStream D}
    (r : Retains maxsize hist s) (numbered : Numbered 0 hist) where
  events-Numbered : Numbered s.start_offset s.events
  events-Numbered =
      let e : 0 + s.start_offset ≡ s.start_offset = omega arith in
      rw r.window (
        subst (λ k. Numbered k (drop s.start_offset hist)) e
          (Numbered-drop 0 s.start_offset hist numbered (omega (arith, r.complete))))

  -- For the id of the event at offset `j` of the whole log, retained or not, a new subscription
  -- starts where a subscriber that has just yielded that event goes on.
  pub resume_after :
      (j : ℕ) (e : StreamEvent D)
      → get_elem? hist j ≡ some e
      → resolve_start_offset s (some e.id) ≡ caught_up s (suc j)
  unfolding resolve_start_offset caught_up
  resume_after j e g = elim (Bool-cases (ltb j s.start_offset)) [
    | inl gone ↦ ground (
      arith,
      index_of_below s.start_offset s.events e.id events-Numbered,
      seq-get 0 j hist e numbered g,
    )
    | inr kept ↦ ground (
      arith,
      index_of-get s.start_offset (j - s.start_offset) s.events e events-Numbered,
      get-events r (j - s.start_offset),
      (let here : s.start_offset + (j - s.start_offset) ≡ j = ground arith in
          ap (get_elem? hist) here),
    )
  ]
