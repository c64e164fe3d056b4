-- ===== src/ToolCalls/Limit.antt =====
-- packages/harness/deerflow/agents/middlewares/subagent_limit_middleware.py, and the copy of a
-- message with other tool calls by tool_call_metadata.py in the same directory.
pub mod Kept
use deer_seek_backend.Prelude.{
  ◌≡◌, ◌∙◌, refl, sym, leb→le, ◌++◌, ap, arith, ◌≤◌, ◌<◌, ℕ, zero, suc, String, Bool, true, false,
  not, ◌&&◌, Option, none, some, List, [], ◌∷◌, ◌==◌, string_eq, nat_eq, keep, take, drop, length,
  contains, leb, min, max, if◌then◌else◌, All, All-drop, Bool-cases, inl, inr, length-take,
  option_eq,
}
use deer_seek_backend.ToolCalls.{
  Args, Call, RawCall, not_a_dict, dict, AiMessage, Message, tool, ai, other, or_string,
}
use deer_seek_backend.ToolCalls.Patch.{ids}

unfoldable pub clamp_subagent_limit : ℕ → ℕ
clamp_subagent_limit value = max 2 (min 4 value)

-- Whether the id is there and among the ids.
unfoldable pub is_among : List String → Option String → Bool
is_among kept none = false
is_among kept (some i) = contains i kept

module _ {J : Type 0} where
  -- `_raw_tool_call_id`
  unfoldable pub raw_tool_call_id : RawCall J → Option String
  unfolding or_string
  raw_tool_call_id (not_a_dict v) = none
  raw_tool_call_id (dict id name args function) = or_string id none

  unfoldable pub clone_ai_message_with_tool_calls : AiMessage J → List (Call J) → AiMessage J
  unfolding ids is_among raw_tool_call_id
  clone_ai_message_with_tool_calls m calls = record m {
    tool_calls = calls;
    raw_tool_calls = keep (λ raw. is_among (ids calls) (raw_tool_call_id raw)) m.raw_tool_calls;
    function_call = elim calls [ [] ↦ none | _ ∷ _ ↦ m.function_call ];
    finish_reason = elim calls [
      | [] ↦ (if m.finish_reason == some "tool_calls" then some "stop" else m.finish_reason)
      | _ ∷ _ ↦ m.finish_reason
    ];
  }

  abbrev pub is_task : Call J → Bool
  is_task c = c.name == "task"

  -- `[i for i, tc in enumerate(calls, start) if tc.get("name") == "task"]`
  unfoldable pub task_indices : ℕ → List (Call J) → List ℕ
  task_indices i [] = []
  task_indices i (c ∷ cs) =
      let rest = task_indices (suc i) cs in if is_task c then i ∷ rest else rest

  -- `[tc for i, tc in enumerate(calls, start) if i not in indices]`
  unfoldable pub without_indices : List ℕ → ℕ → List (Call J) → List (Call J)
  without_indices dropped i [] = []
  without_indices dropped i (c ∷ cs) =
      let rest = without_indices dropped (suc i) cs in if contains i dropped then rest else c ∷ rest

  unfoldable pub truncated : ℕ → List (Call J) → List (Call J)
  unfolding task_indices without_indices
  truncated limit calls = without_indices (drop limit (task_indices 0 calls)) 0 calls

  unfoldable pub truncate_message : ℕ → AiMessage J → Option (AiMessage J)
  unfolding truncated clone_ai_message_with_tool_calls
  truncate_message limit m =
      if leb (length (task_indices 0 m.tool_calls)) limit
      then none
      else some (clone_ai_message_with_tool_calls m (truncated limit m.tool_calls))

  -- `_truncate_task_calls`: the message that replaces the last one.
  unfoldable pub truncate_task_calls : ℕ → List (Message J) → Option (AiMessage J)
  unfolding truncate_message
  truncate_task_calls limit [] = none
  truncate_task_calls limit (ai m ∷ []) = truncate_message limit m
  truncate_task_calls limit (_ ∷ []) = none
  truncate_task_calls limit (_ ∷ m ∷ ms) = truncate_task_calls limit (m ∷ ms)
