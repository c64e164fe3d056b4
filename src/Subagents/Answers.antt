-- ===== src/Subagents/Answers.antt =====
-- What a subagent whose stream runs to its end comes to (executor.py).
use deer_seek_backend.Prelude.{
  ℕ, ◌≡◌, ◌∙◌, refl, ap, String, true, false, Option, none, some, List, [], ◌∷◌, ◌++◌, map, any, Eq,
  string_eq, option_eq,
}
use deer_seek_backend.Subagents.{completed, is_terminal, Result}
use deer_seek_backend.Subagents.Content.{
  Content, text, blocks, value, content_text, collect, or_no_text,
}
use deer_seek_backend.Subagents.Worker.{
  AiMessage, Message, ai, other, ended, final_result, messages_text, last_ai_message, or_else,
  execute,
}
use deer_seek_backend.Subagents.Outcome.{chunks_of, last_chunk, execute_chunks}
use deer_seek_backend.Subagents.Captures.{
  same, NoneTwice, captured-NoneTwice, captured-takes, captured-extends,
}

-- What is read of a content: the text, or what the blocks are joined to.
abbrev pub Reads : Content → String → Type 0
Reads (text s) answer = answer ≡ s
Reads (value s) answer = answer ≡ s
Reads (blocks bs) answer = answer ≡ or_no_text (collect bs [] [])

content_text-Reads : (c : Content) → Reads c (content_text c)
unfolding content_text
content_text-Reads (text s) = refl
content_text-Reads (value s) = refl
content_text-Reads (blocks bs) = refl

module _ {J : Type 0} where
  -- Messages of others.
  abbrev pub others : List Content → List (Message J)
  others = map (λ c. other c)

  last_ai-others : (cs : List Content) → last_ai_message (others cs) ≡ none
  unfolding last_ai_message
  last_ai-others [] = refl
  last_ai-others (c ∷ cs) = last_ai-others cs

  last_ai-found :
      (before : List (Message J)) (m : AiMessage J) (cs : List Content)
      → last_ai_message (before ++ ai m ∷ others cs) ≡ some m
  unfolding last_ai_message or_else
  last_ai-found [] m cs = rw (last_ai-others cs) refl
  last_ai-found (ai n ∷ before) m cs = rw (last_ai-found before m cs) refl
  last_ai-found (other c ∷ before) m cs = last_ai-found before m cs

  last_chunk_snoc :
      {U : Type 0} (final : Option (List (Message J))) (cs : List (List (Message J) × List U))
      (c : List (Message J) × List U)
      → last_chunk final (cs ++ c ∷ []) ≡ some c.0
  last_chunk_snoc final [] c = refl
  last_chunk_snoc final (d ∷ cs) c = last_chunk_snoc (some d.0) cs c

module _ {J : Type 0} ⦃e : Eq (AiMessage J)⦄ where
  final_result-Reads :
      (before : List (Message J)) (m : AiMessage J) (rest : List Content)
      → Reads m.content (final_result (some (before ++ ai m ∷ others rest)))
  unfolding final_result messages_text
  final_result-Reads before m rest = rw (last_ai-found before m rest) (content_text-Reads m.content)

  -- A result that is completed with the answer of a message, where the messages that were captured are
  -- new at the end, none of all is there twice, and one of them is `taken` or has its id.
  pub record Completes {U : Type 0} (now : ℕ) (answer taken : AiMessage J) (usage : List U)
      (r r' : Result (AiMessage J) U) : Type 0 where
    pub status : r'.status ≡ completed
    pub result : (s : String) × (r'.result ≡ some s) × Reads answer.content s
    pub error : r'.error ≡ r.error
    pub completed_at : r'.completed_at ≡ some now
    pub usage_set : r'.token_usage_records ≡ usage
    pub extends : (new : List (AiMessage J)) × (r'.ai_messages ≡ r.ai_messages ++ new)
    pub none_twice : NoneTwice r'.ai_messages
    pub takes : any (λ n. same n taken) r'.ai_messages ≡ true

module _ {J U : Type 0} ⦃e : Eq (AiMessage J)⦄ (now : ℕ) where
  -- Let a worker's stream run to its end, nobody stop it and its result still be open. Then it completes
  -- the result with the text of the last message of the agent in the last chunk, even if other messages
  -- come after that one. Every message of the agent that ends a chunk is captured, unless it or one with
  -- its id was captured before; what was captured before stays, and no message or id is there twice.
  pub execute-Completes :
      (chunks cs : List (List (Message J) × List U)) (before : List (Message J))
      (answer : AiMessage J) (rest : List Content) (u : List U)
      (ds es : List (List (Message J) × List U)) (start : List (Message J)) (taken : AiMessage J)
      (v usage : List U) (r : Result (AiMessage J) U)
      → chunks ≡ cs ++ (before ++ ai answer ∷ others rest, u) ∷ []
      → chunks ≡ ds ++ (start ++ ai taken ∷ [], v) ∷ es
      → r.cancel_event ≡ false
      → is_terminal r.status ≡ false
      → NoneTwice r.ai_messages
      → Completes now answer taken usage r
          (execute now none (chunks_of chunks ++ ended usage ∷ []) r)
  execute-Completes chunks cs before answer rest u ds es start taken v usage r last at on early
        once =
      let found : last_chunk none chunks ≡ some (before ++ ai answer ∷ others rest) =
        ap (last_chunk none) last
        ∙ last_chunk_snoc none cs (before ++ ai answer ∷ others rest, u) in
      rw (execute_chunks now chunks usage r on early) record {
        status = refl;
        result = (
          final_result (last_chunk none chunks),
          refl,
          rw found (final_result-Reads before answer rest),
        );
        error = refl;
        completed_at = refl;
        usage_set = refl;
        extends = captured-extends chunks r.ai_messages;
        none_twice = captured-NoneTwice chunks r.ai_messages once;
        takes = rw at (captured-takes ds es start taken v r.ai_messages);
      }
