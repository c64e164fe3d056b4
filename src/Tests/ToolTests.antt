-- ===== src/Tests/ToolTests.antt =====
-- Runs of dangling_tool_call_middleware.py and subagent_limit_middleware.py
-- (packages/harness/deerflow/agents/middlewares).
use deer_seek_backend.Prelude.{
  ◌≡◌, refl, String, false, Option, none, some, List, [], ◌∷◌, map, string_eq,
}
use deer_seek_backend.ToolCalls.{
  Call, AiMessage, Args, dict, Message, tool, ai, other, text, message_tool_calls,
}
use deer_seek_backend.ToolCalls.Equality.{message_eq}
use deer_seek_backend.ToolCalls.Patch.{build_patched_messages, model_messages, tool_call_ids, ids}
use deer_seek_backend.ToolCalls.Patch.Answered.{shape, result, message, called_for, calls_answered}
use deer_seek_backend.ToolCalls.Patch.Twice.{patch_once}
use deer_seek_backend.ToolCalls.Limit.{truncated, truncate_task_calls}
use deer_seek_backend.ToolCalls.Limit.Kept.{IsLimited, after_limit, truncate_task_calls-IsLimited}

abbrev unreadable : String → Option (Args String)
unreadable s = none

-- One call that was answered late, and one that the provider's client could not read.
abbrev asked : Message String
asked = ai record {
  content = "";
  tool_calls = record { id = some "a"; name = "ls"; args = []; invalid = false; error = none } ∷ [];
  raw_tool_calls = [];
  invalid_tool_calls = dict (some "b") (some "write_file") (some "no JSON") ∷ [];
  function_call = none;
  finish_reason = none;
}

abbrev answered : Message String
answered =
    tool record { tool_call_id = "a"; content = text "src"; name = some "ls"; status = "success" }

abbrev history : List (Message String)
history = asked ∷ other "stop" ∷ answered ∷ []

order :
    map shape (model_messages unreadable history)
    ≡ message asked ∷ result "a" ∷ result "b" ∷ message (other "stop") ∷ []
unfolding called_for ids message_tool_calls tool_call_ids
order = calls_answered unreadable history

calls_answered_example :
    map shape (model_messages unreadable history)
    ≡ called_for unreadable (tool_call_ids unreadable history) history
calls_answered_example = calls_answered unreadable history

patch_once_example : build_patched_messages unreadable (model_messages unreadable history) ≡ none
patch_once_example = patch_once unreadable history

abbrev task : String → Call String
task i = record { id = some i; name = "task"; args = []; invalid = false; error = none }

abbrev listing : Call String
listing = record { id = some "l"; name = "ls"; args = []; invalid = false; error = none }

abbrev parallel : AiMessage String
parallel = record {
  content = "";
  tool_calls = task "1" ∷ task "2" ∷ task "3" ∷ listing ∷ [];
  raw_tool_calls = [];
  invalid_tool_calls = [];
  function_call = none;
  finish_reason = some "tool_calls";
}

two_left : truncated 2 (parallel.tool_calls) ≡ task "1" ∷ task "2" ∷ listing ∷ []
unfolding truncated
two_left = refl

truncate_task_calls-IsLimited_example :
    IsLimited 2
      (task "1" ∷ task "2" ∷ task "3" ∷ listing ∷ [])
      (after_limit (truncate_task_calls 2 (asked ∷ ai parallel ∷ [])) parallel).tool_calls
truncate_task_calls-IsLimited_example = truncate_task_calls-IsLimited 2 (asked ∷ []) parallel
