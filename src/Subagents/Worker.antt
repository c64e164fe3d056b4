-- ===== src/Subagents/Worker.antt =====
-- The worker of a subagent: `_aexecute` of executor.py, from the start of its stream on. What it
-- does between two suspensions is one step, at whose start it reads the cancel event.
use deer_seek_backend.Prelude.{
  ℕ, String, Bool, Option, none, some, List, [], ◌∷◌, ◌++◌, ◌==◌, Eq, string_eq, option_eq, any,
  contains, if◌then◌else◌,
}
use deer_seek_backend.Subagents.{
  completed, failed, cancelled, Result, Update, no_update, set_terminal,
}
use deer_seek_backend.Subagents.Content.{Content, content_text}

-- The dump of a message of the agent.
pub record AiMessage (J : Type 0) : Type 0 where
  pub id : Option String
  pub content : Content
  pub body : J

pub data Message (J : Type 0) : Type 0 where
  ai : AiMessage J → Message J
  other : Content → Message J

-- What the stream brings, with the token usage so far: the messages of the state, its end, or an
-- exception.
pub data Item (J U : Type 0) : Type 0 where
  chunk : List (Message J) → List U → Item J U
  ended : List U → Item J U
  raised : String → List U → Item J U

-- What the worker is at: streaming, with the last chunk, or done.
pub data Phase (J : Type 0) : Type 0 where
  streaming : Option (List (Message J)) → Phase J
  done : Phase J

module _ {J : Type 0} where
  unfoldable pub last_message : List (Message J) → Option (Message J)
  last_message [] = none
  last_message (m ∷ []) = some m
  last_message (m ∷ n ∷ ms) = last_message (n ∷ ms)

  unfoldable pub or_else : Option (AiMessage J) → Option (AiMessage J) → Option (AiMessage J)
  or_else none b = b
  or_else (some a) b = some a

  -- The last message of the agent
  unfoldable pub last_ai_message : List (Message J) → Option (AiMessage J)
  unfolding or_else
  last_ai_message [] = none
  last_ai_message (ai m ∷ ms) = or_else (last_ai_message ms) (some m)
  last_ai_message (other c ∷ ms) = last_ai_message ms

  unfoldable pub message_text : Option (Message J) → String
  unfolding content_text
  message_text none = "No response generated"
  message_text (some (ai m)) = content_text m.content
  message_text (some (other c)) = content_text c

  unfoldable pub messages_text : List (Message J) → Option (AiMessage J) → String
  unfolding message_text last_message
  messages_text ms (some m) = content_text m.content
  messages_text ms none = message_text (last_message ms)

  unfoldable pub final_result : Option (List (Message J)) → String
  unfolding messages_text last_ai_message
  final_result none = "No response generated"
  final_result (some ms) = messages_text ms (last_ai_message ms)

  unfoldable pub has_id : String → AiMessage J → Bool
  has_id i m = m.id == some i

  -- Whether the message was captured before: by its id, if it has one, else as a whole.
  unfoldable pub is_duplicate :
      ⦃e : Eq (AiMessage J)⦄ → AiMessage J → Option String → List (AiMessage J) → Bool
  unfolding has_id
  is_duplicate m none ms = contains m ms
  is_duplicate m (some i) ms = if i == "" then contains m ms else any (has_id i) ms

  unfoldable pub capture :
      ⦃e : Eq (AiMessage J)⦄ → Option (Message J) → List (AiMessage J) → List (AiMessage J)
  unfolding is_duplicate
  capture (some (ai m)) ms = if is_duplicate m m.id ms then ms else ms ++ m ∷ []
  capture _ ms = ms

abbrev pub cancelled_by_user : {M U : Type 0} → List U → Update M U
cancelled_by_user usage = record no_update {
  error = some "Cancelled by user";
  token_usage_records = some usage;
}

abbrev pub completion : {J U : Type 0} → Option (List (Message J)) → List U → Update (AiMessage J) U
completion final usage = record no_update {
  result = some (final_result final);
  token_usage_records = some usage;
}

abbrev pub failure : {M U : Type 0} → String → List U → Update M U
failure error usage = record no_update { error = some error; token_usage_records = some usage }

module _ {J U : Type 0} ⦃e : Eq (AiMessage J)⦄ where
  -- One item of the stream. The cancel event is looked at before a chunk is used.
  unfoldable pub worker_step :
      ℕ
      → Item J U
      → Option (List (Message J))
      → Result (AiMessage J) U
      → Phase J × Result (AiMessage J) U
  unfolding set_terminal capture final_result
  worker_step now (chunk ms usage) final r =
      if r.cancel_event
      then (done, set_terminal now cancelled (cancelled_by_user usage) r)
      else (streaming (some ms), record r { ai_messages = capture (last_message ms) r.ai_messages })
  worker_step now (ended usage) final r =
      (done, set_terminal now completed (completion final usage) r)
  worker_step now (raised error usage) final r =
      (done, set_terminal now failed (failure error usage) r)

  -- The stream from an item on, where nobody else writes the result. A stream that brings no more
  -- items has ended.
  unfoldable pub stream :
      ℕ → List (Item J U) → Phase J → Result (AiMessage J) U → Result (AiMessage J) U
  unfolding worker_step
  stream now items done r = r
  stream now [] (streaming final) r = (worker_step now (ended []) final r).1
  stream now (i ∷ is) (streaming final) r =
      let (phase, r') = worker_step now i final r in stream now is phase r'

  -- `_aexecute`: what preparing the agent raised, if it did, and the items of the stream.
  unfoldable pub execute :
      ℕ → Option String → List (Item J U) → Result (AiMessage J) U → Result (AiMessage J) U
  unfolding stream set_terminal
  execute now (some error) items r =
      set_terminal now failed (record no_update { error = some error }) r
  execute now none items r =
      if r.cancel_event
      then set_terminal now cancelled (cancelled_by_user []) r
      else stream now items (streaming none) r
