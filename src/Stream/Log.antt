-- ===== src/Stream/Log.antt =====
-- The bounded buffer as a window on the whole log: what `publish` keeps, for its run and for others.
use deer_seek_backend.Prelude.{
  beq_refl, ap, if◌then◌else◌, ◌==◌, string_eq, ℕ, zero, suc, ◌+◌, ◌-◌, ◌≤◌, String, ◌≡◌, ◌≢◌, refl,
  ◌∙◌, List, [], ◌∷◌, ◌++◌, arith, length, drop, length-append, length-drop, eq_iff,
}
use deer_seek_backend.Dict.{get_or}
use deer_seek_backend.Dict.Laws.{get_or-put, get_or_absent}
use deer_seek_backend.Stream.{
  StreamEvent, RunStream, Bridge, new_stream, get_or_create_stream, stream_of, next_id,
  append_event, publish,
}

module _ {ℓ} {A : Type ℓ} where
  drop_nil : (n : ℕ) → drop {A = A} n [] ≡ []
  drop_nil zero = refl
  drop_nil (suc n) = refl

  drop-drop : (a b : ℕ) (xs : List A) → drop a (drop b xs) ≡ drop (b + a) xs
  drop-drop a zero xs = ground arith
  drop-drop zero (suc b) [] = ground arith
  drop-drop (suc a) (suc b) [] = ground (arith, drop_nil (suc b + suc a))
  drop-drop a (suc b) (x ∷ xs) =
      drop-drop a b xs
      ∙ ap (λ n. drop n (x ∷ xs)) (let e : suc (b + a) ≡ suc b + a = omega arith in e)

  drop-append : (n : ℕ) (xs ys : List A) → n ≤ length xs → drop n (xs ++ ys) ≡ drop n xs ++ ys
  drop-append zero xs ys h = refl
  drop-append (suc n) [] ys h = absurd (omega arith)
  drop-append (suc n) (x ∷ xs) ys h = drop-append n xs ys (omega arith)

module _ {D : Type 0} where
  -- The sequence numbers in the ids count up from `n`.
  abbrev pub Numbered : ℕ → List (StreamEvent D) → Type 0
  Numbered n [] = Unit
  Numbered n (e ∷ es) = (e.id.1 ≡ n) × Numbered (suc n) es

  -- `s` holds the last events of the log `hist`, at most `maxsize` of them, at their offsets.
  pub record Retains (maxsize : ℕ) (hist : List (StreamEvent D)) (s : RunStream D) : Type 0 where
    pub window : s.events ≡ drop s.start_offset hist
    pub complete : s.start_offset + length s.events ≡ length hist
    pub bounded : length s.events ≤ maxsize
    pub tight : s.start_offset ≡ length hist - maxsize

  -- The stream of `run_id` retains `hist`, whose ids are numbered, and its counter is the next.
  pub record Tracks (b : Bridge D) (run_id : String) (hist : List (StreamEvent D)) : Type 0 where
    pub log : Retains b.maxsize hist (stream_of b run_id)
    pub counter : get_or b.counters run_id 0 ≡ length hist
    pub numbered : Numbered 0 hist

  Numbered-snoc :
      (n : ℕ) (es : List (StreamEvent D)) (e : StreamEvent D)
      → Numbered n es
      → e.id.1 ≡ n + length es
      → Numbered n (es ++ e ∷ [])
  Numbered-snoc n [] e h p = (omega arith, tt)
  Numbered-snoc n (x ∷ es) e h p = (h.0, Numbered-snoc (suc n) es e h.1 (omega arith))

  pub append_event-Retains :
      (maxsize : ℕ) (hist : List (StreamEvent D)) (s : RunStream D) (e : StreamEvent D)
      → Retains maxsize hist s
      → Retains maxsize (hist ++ e ∷ []) (append_event maxsize s e)
  unfolding append_event
  append_event-Retains maxsize hist s e h = record {
    window = ground (
      arith,
      h.window,
      drop-append s.start_offset hist (e ∷ []),
      drop-drop (length (s.events ++ e ∷ []) - maxsize) s.start_offset (hist ++ e ∷ []),
    );
    complete = ground (
      arith,
      length-append s.events (e ∷ []),
      length-append hist (e ∷ []),
      length-drop (length (s.events ++ e ∷ []) - maxsize) (s.events ++ e ∷ []),
    );
    bounded = ground (
      arith,
      length-append s.events (e ∷ []),
      length-drop (length (s.events ++ e ∷ []) - maxsize) (s.events ++ e ∷ []),
    );
    tight = ground (
      arith,
      h.tight,
      h.complete,
      h.bounded,
      length-append s.events (e ∷ []),
      length-append hist (e ∷ []),
    );
  }

module _ {D : Type 0} (b : Bridge D) (run_id : String) where
  -- Creating a stream shows nowhere: an absent stream reads as the new one.
  stream_of-get_or_create_stream :
      (j : String) → stream_of (get_or_create_stream b run_id) j ≡ stream_of b j
  unfolding get_or_create_stream
  stream_of-get_or_create_stream j = ground (
    arith,
    get_or-put b.streams run_id j new_stream new_stream,
    get_or_absent b.streams run_id new_stream,
    eq_iff run_id j,
  )

  counter_get_or_create_stream :
      (hist : List (StreamEvent D))
      → Tracks b run_id hist
      → get_or (get_or_create_stream b run_id).counters run_id 0 ≡ length hist
  unfolding get_or_create_stream
  counter_get_or_create_stream hist h = ground (
    arith,
    h.counter,
    h.log.complete,
    get_or-put b.counters run_id run_id 0 0,
    get_or_absent b.streams run_id new_stream,
    eq_iff run_id run_id,
  )

module _ {D : Type 0} (b : Bridge D) (ts : ℕ) (run_id event : String) (payload : D) where
  abbrev pub published : List (StreamEvent D) → StreamEvent D
  published hist = record { id = (ts, length hist); event = event; payload = payload }

  stream_of-publish :
      (hist : List (StreamEvent D)) (j : String)
      → Tracks b run_id hist
      → stream_of (publish b ts run_id event payload) j ≡ (
          if run_id == j
          then append_event b.maxsize (stream_of b run_id) (published hist)
          else stream_of b j)
  unfolding publish next_id
  stream_of-publish hist j h = rw (
    get_or-put (get_or_create_stream b run_id).streams run_id j _ new_stream,
    stream_of-get_or_create_stream b run_id run_id,
    stream_of-get_or_create_stream b run_id j,
    counter_get_or_create_stream b run_id hist h,
    (let e : length hist + 1 - 1 ≡ length hist = omega arith in e),
  )

  maxsize-publish : (publish b ts run_id event payload).maxsize ≡ b.maxsize
  unfolding publish next_id get_or_create_stream
  maxsize-publish = ground arith

  counter-publish :
      (hist : List (StreamEvent D))
      → Tracks b run_id hist
      → get_or (publish b ts run_id event payload).counters run_id 0 ≡ length hist + 1
  unfolding publish next_id
  counter-publish hist h = rw (
    get_or-put (get_or_create_stream b run_id).counters run_id run_id _ 0,
    beq_refl run_id,
    counter_get_or_create_stream b run_id hist h,
  )

  -- `publish` adds one event at the end of its run's log, with the next number in its id.
  pub publish-Tracks :
      (hist : List (StreamEvent D))
      → Tracks b run_id hist
      → Tracks (publish b ts run_id event payload) run_id (hist ++ published hist ∷ [])
  publish-Tracks hist h =
      let same = stream_of-publish hist run_id h in
      record {
        log =
            rw (same, beq_refl run_id, maxsize-publish)
              (append_event-Retains b.maxsize hist (stream_of b run_id) (published hist) h.log);
        counter =
            rw (counter-publish hist h, length-append hist (published hist ∷ [])) (omega arith);
        numbered = Numbered-snoc 0 hist (published hist) h.numbered (omega arith);
      }

  -- `publish` leaves the streams of the other runs as they are.
  pub stream_of-publish_ne :
      (hist : List (StreamEvent D)) (j : String)
      → Tracks b run_id hist
      → run_id ≢ j
      → stream_of (publish b ts run_id event payload) j ≡ stream_of b j
  stream_of-publish_ne hist j h n = ground (arith, stream_of-publish hist j h, eq_iff run_id j)
