-- ===== src/Subagents/Outcome.antt =====
-- What `_aexecute` of executor.py comes to.
use deer_seek_backend.Prelude.{
  ℕ, ◌≡◌, ◌∙◌, refl, ap, arith, String, Bool, true, false, Option, none, some, List, [], ◌∷◌, ◌++◌,
  map, Eq, if◌then◌else◌, Bool-cases, inl, inr,
}
use deer_seek_backend.Subagents.{
  completed, failed, cancelled, is_terminal, Result, no_update, write_terminal, set_terminal,
}
use deer_seek_backend.Subagents.Worker.{
  AiMessage, Message, Item, chunk, ended, raised, streaming, done, final_result, capture,
  last_message, cancelled_by_user, completion, failure, worker_step, stream, execute,
}
use deer_seek_backend.Subagents.Races.{set_terminal_first, set_terminal-is_terminal}

either_terminal :
    {M U : Type 0} (r s : Result M U) (b : Bool)
    → is_terminal r.status ≡ true
    → is_terminal s.status ≡ true
    → is_terminal (if b then r else s).status ≡ true
either_terminal r s true h k = h
either_terminal r s false h k = k

module _ {J U : Type 0} where
  -- The chunks of a stream, each with the token usage so far.
  abbrev pub chunks_of : List (List (Message J) × List U) → List (Item J U)
  chunks_of = map (λ c. chunk c.0 c.1)

  abbrev pub last_chunk :
      Option (List (Message J)) → List (List (Message J) × List U) → Option (List (Message J))
  last_chunk final [] = final
  last_chunk final (c ∷ cs) = last_chunk (some c.0) cs

  -- The messages captured from the chunks.
  abbrev pub captured :
      ⦃e : Eq (AiMessage J)⦄
      → List (List (Message J) × List U)
      → List (AiMessage J)
      → List (AiMessage J)
  captured [] ms = ms
  captured (c ∷ cs) ms = captured cs (capture (last_message c.0) ms)

module _ {J U : Type 0} ⦃e : Eq (AiMessage J)⦄ (now : ℕ) where
  chunk_step :
      (ms : List (Message J)) (usage : List U) (final : Option (List (Message J)))
      (r : Result (AiMessage J) U)
      → r.cancel_event ≡ false
      → worker_step now (chunk ms usage) final r
        ≡ (streaming (some ms), record r { ai_messages = capture (last_message ms) r.ai_messages })
  unfolding worker_step
  chunk_step ms usage final r on = ground arith

  cancel_step :
      (ms : List (Message J)) (usage : List U) (final : Option (List (Message J)))
      (r : Result (AiMessage J) U)
      → r.cancel_event ≡ true
      → worker_step now (chunk ms usage) final r
        ≡ (done, set_terminal now cancelled (cancelled_by_user usage) r)
  unfolding worker_step
  cancel_step ms usage final r stop = ground arith

  stream-is_terminal :
      (items : List (Item J U)) (final : Option (List (Message J))) (r : Result (AiMessage J) U)
      → is_terminal (stream now items (streaming final) r).status ≡ true
  unfolding stream is_terminal
  stream-is_terminal [] final r =
      set_terminal-is_terminal now completed (completion final []) r refl
  stream-is_terminal (chunk ms usage ∷ is) final r = elim (Bool-cases r.cancel_event) [
    | inl stop ↦
        rw (stream, cancel_step ms usage final r stop)
          (set_terminal-is_terminal now cancelled (cancelled_by_user usage) r refl)
    | inr on ↦ rw (stream, chunk_step ms usage final r on) (stream-is_terminal is (some ms) _)
  ]
  stream-is_terminal (ended usage ∷ is) final r =
      set_terminal-is_terminal now completed (completion final usage) r refl
  stream-is_terminal (raised error usage ∷ is) final r =
      set_terminal-is_terminal now failed (failure error usage) r refl

  -- However the preparation and the stream end, the result has a terminal status at the end.
  pub execute-is_terminal :
      (error : Option String) (items : List (Item J U)) (r : Result (AiMessage J) U)
      → is_terminal (execute now error items r).status ≡ true
  unfolding execute is_terminal
  execute-is_terminal (some error) items r =
      set_terminal-is_terminal now failed (record no_update { error = some error }) r refl
  execute-is_terminal none items r =
      either_terminal _ _ r.cancel_event
        (set_terminal-is_terminal now cancelled (cancelled_by_user []) r refl)
        (stream-is_terminal items none r)

  stream_completes :
      (cs : List (List (Message J) × List U)) (usage : List U) (final : Option (List (Message J)))
      (r : Result (AiMessage J) U)
      → r.cancel_event ≡ false
      → stream now (chunks_of cs ++ ended usage ∷ []) (streaming final) r
        ≡ set_terminal now completed
            (completion (last_chunk final cs) usage)
            (record r { ai_messages = captured cs r.ai_messages })
  unfolding stream worker_step
  stream_completes [] usage final r on = refl
  stream_completes (c ∷ cs) usage final r on =
      rw (stream, chunk_step c.0 c.1 final r on)
        (stream_completes cs usage (some c.0)
          (record r { ai_messages = capture (last_message c.0) r.ai_messages }) on)

  -- A worker that nobody stops, by what it reads of each chunk.
  pub execute_chunks :
      (cs : List (List (Message J) × List U)) (usage : List U) (r : Result (AiMessage J) U)
      → r.cancel_event ≡ false
      → is_terminal r.status ≡ false
      → execute now none (chunks_of cs ++ ended usage ∷ []) r ≡ record r {
        status = completed;
        result = some (final_result (last_chunk none cs));
        completed_at = some now;
        ai_messages = captured cs r.ai_messages;
        token_usage_records = usage;
      }
  unfolding execute write_terminal is_terminal
  execute_chunks cs usage r on early =
      let s = record r { ai_messages = captured cs r.ai_messages } in
      let items = chunks_of cs ++ ended usage ∷ [] in
      ap
        (λ b.
          if b
          then set_terminal now cancelled (cancelled_by_user []) r
          else stream now items (streaming none) r)
        on
      ∙ stream_completes cs usage none r on
      ∙ set_terminal_first now completed (completion (last_chunk none cs) usage) s refl early
