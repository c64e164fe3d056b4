-- ===== src/Loops/Hooks.antt =====
-- The hooks of `LoopDetectionMiddleware` (loop_detection_middleware.py): what the agent's loop calls
-- before and after a run, around a model call and after its response.
use deer_seek_backend.Prelude.{
  ℕ, String, Bool, false, not, Option, none, some, List, [], ◌∷◌, ◌++◌, ◌==◌, string_eq, pair_eq,
  if◌then◌else◌, keep, dedupe,
}
use Prim.Native.String.{◌++◌ as join}
use deer_seek_backend.Dict.{Dict, get, get_or, put, pop}
use deer_seek_backend.Loops.{
  Config, Loops, fresh, Runtime, get_thread_id, get_run_id, pending_key, drop_key, drop_keys,
  queue_warning, keys_of, forget_thread,
}
use deer_seek_backend.Loops.Track.{ToolCall, Verdict, quiet, warn, stop, check}

-- A message's content: absent, a text, or content blocks. `J` is any other value.
pub data Block (J : Type 0) : Type 0 where
  text : String → Block J
  other_block : J → Block J

pub data Content (J : Type 0) : Type 0 where
  absent : Content J
  plain : String → Content J
  blocks : List (Block J) → Content J

pub data Value (J : Type 0) : Type 0 where
  string : String → Value J
  other : J → Value J

-- A message of the conversation, with the fields that the middleware reads or changes.
pub record Message (J : Type 0) : Type 0 where
  pub is_ai : Bool
  pub name : Option String
  pub content : Content J
  pub tool_calls : List (ToolCall J)
  pub additional_kwargs : Dict String (Value J)
  pub response_metadata : Dict String (Value J)

paragraph : String → String
paragraph s = join "\n\n" s

module _ {J : Type 0} where
  -- `_append_text`
  unfoldable pub append_text : Content J → String → Content J
  unfolding paragraph
  append_text absent s = plain s
  append_text (blocks bs) s = blocks (bs ++ text (paragraph s) ∷ [])
  append_text (plain t) s = plain (join t (paragraph s))

  unfoldable pub stop_reason : Option (Value J) → Dict String (Value J) → Dict String (Value J)
  stop_reason (some (string s)) d =
      if s == "tool_calls" then put d "finish_reason" (string "stop") else d
  stop_reason _ d = d

  -- `_build_hard_stop_update`, applied to the message
  unfoldable pub stripped : Message J → Content J → Message J
  unfolding stop_reason
  stripped m content = record m {
    tool_calls = [];
    content = content;
    additional_kwargs = pop (pop m.additional_kwargs "tool_calls") "function_call";
    response_metadata = stop_reason (get m.response_metadata "finish_reason") m.response_metadata;
  }

  unfoldable pub last : List (Message J) → Option (Message J)
  last [] = none
  last (m ∷ []) = some m
  last (m ∷ n ∷ ms) = last (n ∷ ms)

-- The message that replaces the last one, if the run has to stop.
unfoldable pub replacement : {J : Type 0} → Verdict → Option (Message J) → Option (Message J)
unfolding append_text stripped
replacement (stop reason) (some m) = some (stripped m (append_text m.content reason))
replacement _ _ = none

unfoldable pub queued : Config → Runtime → Verdict → Loops → Loops
unfolding queue_warning
queued c r (warn w) s = record s { pending = queue_warning c (pending_key r) w s.pending }
queued c r _ s = s

module _ {J : Type 0} (call_hash : List (ToolCall J) → String) (str : ℕ → String) (c : Config) where
  unfoldable pub check_calls : String → List (ToolCall J) → Loops → Verdict × Loops
  unfolding check
  check_calls thread [] s = (quiet, s)
  check_calls thread (tc ∷ tcs) s = check str c thread (call_hash (tc ∷ tcs)) (tc ∷ tcs) s

  unfoldable pub track_message : String → Option (Message J) → Loops → Verdict × Loops
  unfolding check_calls
  track_message thread none s = (quiet, s)
  track_message thread (some m) s =
      if m.is_ai then check_calls thread m.tool_calls s else (quiet, s)

  -- `_track_and_check`, on the last message
  unfoldable pub track_and_check : Runtime → List (Message J) → Loops → Verdict × Loops
  unfolding track_message last
  track_and_check r messages s = track_message (get_thread_id r) (last messages) s

  -- `_apply`, the hook `after_model`
  unfoldable pub after_model : Runtime → List (Message J) → Loops → Option (Message J) × Loops
  unfolding track_and_check replacement queued
  after_model r messages s =
      let (verdict, s') = track_and_check r messages s in
      (replacement verdict (last messages), queued c r verdict s')

-- `_clear_other_run_pending_warnings`, the hook `before_agent`
unfoldable pub before_agent : Runtime → Loops → Loops
unfolding drop_keys
before_agent r s = record s {
  pending =
      drop_keys (keep (λ k. not (k.1 == get_run_id r)) (keys_of (get_thread_id r) s.pending))
        s.pending;
}

-- `_clear_current_run_pending_warnings`, the hook `after_agent`
unfoldable pub after_agent : Runtime → Loops → Loops
unfolding drop_key
after_agent r s = record s { pending = drop_key (pending_key r) s.pending }

-- `_drain_pending_warnings`
unfoldable pub drain : Runtime → Loops → List String × Loops
unfolding drop_key
drain r s = (
  get_or s.pending.warnings (pending_key r) [],
  record s { pending = drop_key (pending_key r) s.pending },
)

join_paragraphs : List String → String
unfolding paragraph
join_paragraphs [] = ""
join_paragraphs (w ∷ []) = w
join_paragraphs (w ∷ v ∷ ws) = join w (paragraph (join_paragraphs (v ∷ ws)))

-- `_format_warning_message`
unfoldable pub format_warnings : List String → String
unfolding join_paragraphs
format_warnings ws = join_paragraphs (dedupe ws)

module _ {J : Type 0} where
  warning_message : String → Message J
  warning_message w = record {
    is_ai = false;
    name = some "loop_warning";
    content = plain w;
    tool_calls = [];
    additional_kwargs = [];
    response_metadata = [];
  }

  unfoldable pub with_warnings : List String → List (Message J) → List (Message J)
  unfolding format_warnings warning_message
  with_warnings [] messages = messages
  with_warnings (w ∷ ws) messages = messages ++ warning_message (format_warnings (w ∷ ws)) ∷ []

  -- `_augment_request`, what `wrap_model_call` passes to its handler
  unfoldable pub augment_request : Runtime → List (Message J) → Loops → List (Message J) × Loops
  unfolding drain with_warnings
  augment_request r messages s =
      let (warnings, s') = drain r s in (with_warnings warnings messages, s')

-- `reset`, of one thread where it is given
unfoldable pub reset : Option String → Loops → Loops
unfolding forget_thread
reset none s = fresh
reset (some thread) s =
    if thread == ""
    then fresh
    else forget_thread thread (record s { history = pop s.history thread })

-- A call of the middleware from outside: a hook of an agent's run, or `reset`.
pub data Event (J : Type 0) : Type 0 where
  run_starts run_ends : Runtime → Event J
  model_answers model_is_called : Runtime → List (Message J) → Event J
  is_reset : Option String → Event J

module _ {J : Type 0} (call_hash : List (ToolCall J) → String) (str : ℕ → String) (c : Config) where
  unfoldable pub handle : Event J → Loops → Loops
  unfolding after_model before_agent after_agent augment_request reset
  handle (run_starts r) s = before_agent r s
  handle (run_ends r) s = after_agent r s
  handle (model_answers r messages) s = (after_model call_hash str c r messages s).1
  handle (model_is_called r messages) s = (augment_request r messages s).1
  handle (is_reset thread) s = reset thread s

  unfoldable pub handle_all : List (Event J) → Loops → Loops
  unfolding handle
  handle_all [] s = s
  handle_all (e ∷ es) s = handle_all es (handle e s)
