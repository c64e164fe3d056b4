-- ===== src/Stream/Delivery.antt =====
-- What a subscriber receives: one turn of its loop against the whole log, the loop on a stream that
-- has ended, and every interleaving of its turns with the producer's calls.
use deer_seek_backend.Prelude.{
  ℕ, zero, suc, ◌+◌, ◌-◌, ◌≤◌, ◌<◌, ◌≡◌, refl, ap, sym, ◌∙◌, List, [], ◌∷◌, ◌++◌, none, some,
  Option, arith, length, drop, take, get_elem?, Option-cases, inl, inr, Bool, true, if◌then◌else◌,
  length-append,
}
use deer_seek_backend.Stream.{
  StreamEvent, RunStream, Turn, yields, ends, waits, new_stream, append_event, caught_up, poll,
}
use deer_seek_backend.Stream.Log.{Retains, append_event-Retains}
use deer_seek_backend.Stream.Resume.{get-events}

module _ {ℓ} {A : Type ℓ} where
  drop_at :
      (n : ℕ) (xs : List A) (x : A) → get_elem? xs n ≡ some x → drop n xs ≡ x ∷ drop (suc n) xs
  drop_at n [] x h = cc
  drop_at zero (y ∷ xs) x h = cc
  drop_at (suc n) (y ∷ xs) x h = drop_at n xs x h

  drop_past : (n : ℕ) (xs : List A) → get_elem? xs n ≡ none → drop n xs ≡ []
  drop_past zero [] h = refl
  drop_past (suc n) [] h = refl
  drop_past zero (y ∷ xs) h = cc
  drop_past (suc n) (y ∷ xs) h = drop_past n xs h

  get_elem?-lt : (n : ℕ) (xs : List A) (x : A) → get_elem? xs n ≡ some x → n < length xs
  get_elem?-lt n [] x h = cc
  get_elem?-lt zero (y ∷ xs) x h = omega arith
  get_elem?-lt (suc n) (y ∷ xs) x h = omega (arith, get_elem?-lt n xs x h)

  take_snoc :
      (n : ℕ) (xs : List A) (x : A)
      → get_elem? xs n ≡ some x
      → take n xs ++ x ∷ [] ≡ take (suc n) xs
  take_snoc n [] x h = cc
  take_snoc zero (y ∷ xs) x h = ground arith
  take_snoc (suc n) (y ∷ xs) x h = ap (◌∷◌ y) (take_snoc n xs x h)

  take-append : (n : ℕ) (xs ys : List A) → n ≤ length xs → take n (xs ++ ys) ≡ take n xs
  take-append zero xs ys h = refl
  take-append (suc n) [] ys h = absurd (omega arith)
  take-append (suc n) (x ∷ xs) ys h = ap (◌∷◌ x) (take-append n xs ys (omega arith))

module _ {D : Type 0} where
  -- The turn that the whole log calls for at an offset.
  abbrev pub turn_at : List (StreamEvent D) → Bool → ℕ → Turn D
  turn_at hist ended n = elim (get_elem? hist n) [
    | some e ↦ yields e (suc n)
    | none ↦ if ended then ends else waits n
  ]

  -- The loop of `subscribe` on a stream that nobody writes to any more, up to the end sentinel.
  unfoldable pub drain : ℕ → RunStream D → ℕ → Option (List (StreamEvent D))
  drain zero s next = none
  drain (suc fuel) s next = elim (poll s next) [
    | yields e n ↦
        (let rest = drain fuel s n in elim rest [ none ↦ none | some es ↦ some (e ∷ es) ])
    | ends ↦ some []
    | waits n ↦ none
  ]

module _ {D : Type 0} {maxsize : ℕ} {hist : List (StreamEvent D)} {s : RunStream D}
    (r : Retains maxsize hist s) where
  caught_up_events :
      (next : ℕ)
      → get_elem? s.events (caught_up s next - s.start_offset) ≡ get_elem? hist (caught_up s next)
  caught_up_events next =
      get-events r (caught_up s next - s.start_offset) ∙ ap (get_elem? hist) here
    where
      here : s.start_offset + (caught_up s next - s.start_offset) ≡ caught_up s next
      here = unfold caught_up in ground arith

  -- A turn yields the next event of the whole log; a subscriber that lags behind the buffer goes on
  -- at its start. It waits only at the end of the log, and returns there if the run has ended.
  pub poll_log : (next : ℕ) → poll s next ≡ turn_at hist s.ended (caught_up s next)
  poll_log next = unfold poll caught_up in ground (arith, caught_up_events next)

  yields-log :
      (next n : ℕ) (e : StreamEvent D)
      → poll s next ≡ yields e n
      → (get_elem? hist (caught_up s next) ≡ some e) × (n ≡ suc (caught_up s next))
  yields-log next n e p = ground (arith, poll_log next)

  caught_up-suc : (next : ℕ) → caught_up s (suc (caught_up s next)) ≡ suc (caught_up s next)
  unfolding caught_up
  caught_up-suc next = ground arith

  -- On an ended run the loop returns, with all that the log holds from its offset on, or from the
  -- start of the buffer where that is later.
  pub drain_ended :
      (fuel next : ℕ)
      → s.ended ≡ true
      → length hist - caught_up s next < fuel
      → drain fuel s next ≡ some (drop (caught_up s next) hist)
  unfolding drain
  drain_ended zero next h m = absurd (omega arith)
  drain_ended (suc fuel) next h m = elim (Option-cases (get_elem? hist (caught_up s next))) [
    | inl past ↦ ground (arith, poll_log next, drop_past (caught_up s next) hist past)
    | inr (e, at) ↦ ground (
      arith,
      poll_log next,
      caught_up-suc next,
      drop_at (caught_up s next) hist e at,
      get_elem?-lt (caught_up s next) hist e at,
      drain_ended fuel (suc (caught_up s next)) h,
    )
  ]

-- A producer and a subscriber of one run: the stream, the log of all that was published, the
-- subscriber's offset, and what it has received.
pub record Session (D : Type 0) : Type 0 where
  pub stream : RunStream D
  pub log : List (StreamEvent D)
  pub next : ℕ
  pub received : List (StreamEvent D)

abbrev pub start : {D : Type 0} → Session D
start = record { stream = new_stream; log = []; next = 0; received = [] }

-- A heartbeat and a turn that waits change nothing, and so are no steps.
pub data Step {D : Type 0} (maxsize : ℕ) : Session D → Session D → Type 0 where
  publishes :
      (t : Session D) (e : StreamEvent D)
      → Step maxsize t
          (record t { stream = append_event maxsize t.stream e; log = t.log ++ e ∷ [] })
  finishes :
      (t : Session D) → Step maxsize t (record t { stream = record t.stream { ended = true } })
  receives :
      (t : Session D) (e : StreamEvent D) (n : ℕ)
      → poll t.stream t.next ≡ yields e n
      → Step maxsize t (record t { next = n; received = t.received ++ e ∷ [] })

pub data Reach {D : Type 0} (maxsize : ℕ) (t : Session D) : Session D → Type 0 where
  here : Reach maxsize t t
  step : {u v : Session D} → Reach maxsize t u → Step maxsize u v → Reach maxsize t v

record Inv {D : Type 0} (maxsize : ℕ) (t : Session D) : Type 0 where
  retains : Retains maxsize t.log t.stream
  within : t.next ≤ length t.log
  exact : length t.log ≤ maxsize → t.received ≡ take t.next t.log

module _ {D : Type 0} {maxsize : ℕ} where
  Step-Inv : {t u : Session D} → Step maxsize t u → Inv maxsize t → Inv maxsize u
  Step-Inv (publishes t e) v = record {
    retains = append_event-Retains maxsize t.log t.stream e v.retains;
    within = omega (arith, v.within, length-append t.log (e ∷ []));
    exact = λ h.
        v.exact (omega (arith, length-append t.log (e ∷ [])))
        ∙ sym (take-append t.next t.log (e ∷ []) v.within);
  }
  Step-Inv (finishes t) v = record {
    retains = record {
      window = v.retains.window;
      complete = v.retains.complete;
      bounded = v.retains.bounded;
      tight = v.retains.tight;
    };
    within = v.within;
    exact = v.exact;
  }
  Step-Inv (receives t e n p) v =
      let (at, after) = yields-log v.retains t.next n e p in
      record {
        retains = v.retains;
        within = omega (arith, after, get_elem?-lt (caught_up t.stream t.next) t.log e at);
        exact = λ h.
            let kept : caught_up t.stream t.next ≡ t.next =
              unfold caught_up in ground (arith, v.retains.tight) in
            ground (arith, v.exact h, kept, after, at, take_snoc t.next t.log e);
      }

  Reach-Inv : {t u : Session D} → Inv maxsize t → Reach maxsize t u → Inv maxsize u
  Reach-Inv v here = v
  Reach-Inv v (step r st) = Step-Inv st (Reach-Inv v r)

  Inv-start : Inv {D = D} maxsize start
  Inv-start = record {
    retains = record { window = refl; complete = refl; bounded = omega arith; tight = omega arith };
    within = omega arith;
    exact = λ h. refl;
  }

  -- However the calls interleave: while no more was published than the buffer holds, the
  -- subscriber has received exactly the first `next` events, in order, each once.
  pub delivery_exact :
      (t : Session D)
      → Reach maxsize start t
      → length t.log ≤ maxsize
      → t.received ≡ take t.next t.log
  delivery_exact t r h = (Reach-Inv Inv-start r).exact h
