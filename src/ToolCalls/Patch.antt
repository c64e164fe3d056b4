-- ===== src/ToolCalls/Patch.antt =====
-- `_build_patched_messages` of dangling_tool_call_middleware.py. A deque of tool messages is the
-- list of its elements, and the set of call ids a list.
pub mod Answered
pub mod Twice
pub mod Queued
use deer_seek_backend.Prelude.{
  ℕ, zero, suc, String, Bool, true, false, Option, none, some, List, [], ◌∷◌, ◌++◌, ◌==◌, string_eq,
  take, if◌then◌else◌, map, Eq, contains, not, ◌&&◌,
}
use Prim.Native.String.{◌++◌ as join, [] as nil, ◌∷◌ as cons}
use deer_seek_backend.Dict.{Dict, get_or, put}
use deer_seek_backend.ToolCalls.{
  Args, Call, AiMessage, ToolContent, ToolMessage, Message, text, tool, ai, other, or_string,
  message_tool_calls,
}

-- Python's `==` of two lists
unfoldable pub same_all : {A : Type 0} ⦃e : Eq A⦄ → List A → List A → Bool
same_all [] [] = true
same_all (x ∷ xs) (y ∷ ys) = x == y && same_all xs ys
same_all _ _ = false

abbrev pub max_recovery_error_detail_len : ℕ
max_recovery_error_detail_len = 500

-- `s[:n]`
unfoldable pub first_chars : ℕ → String → String
first_chars zero s = nil
first_chars (suc n) nil = nil
first_chars (suc n) (cons c s) = cons c (first_chars n s)

-- `error[:_MAX_RECOVERY_ERROR_DETAIL_LEN]` of an error that is a string
unfoldable pub error_text : Option String → String
unfolding first_chars
error_text none = ""
error_text (some e) = first_chars max_recovery_error_detail_len e

write_file_failed : String
write_file_failed =
    "[write_file failed before execution: the tool-call arguments were not valid JSON, so no file was written. This often happens when the model tries to write a very large Markdown file in a single tool call, especially when `content` contains unescaped quotes, inline JSON, backslashes, or code fences. Do not retry the same large `write_file` payload for this artifact; provide the report/content directly as normal assistant text in your next response. If a file write is still needed later, split the file into smaller sections instead of one large payload."

-- `f"{before}{error_text}{after}" if error_text else otherwise`
unfoldable pub with_error : String → String → String → String → String
with_error before error after otherwise =
    if error == "" then otherwise else join before (join error after)

unfoldable pub synthetic_content : {J : Type 0} → Call J → String
unfolding error_text with_error write_file_failed
synthetic_content c =
    if not c.invalid
    then "[Tool call was interrupted and did not return a result.]"
    else if c.name == "write_file"
    then join write_file_failed (join (with_error " Parser error: " (error_text c.error) "" "") "]")
    else with_error "[Tool call could not be executed because its arguments were invalid: "
        (error_text c.error) "]"
        "[Tool call could not be executed because its arguments were invalid.]"

-- `tool_messages_by_id`
abbrev pub Queues : Type 0 → Type 0
Queues J = Dict String (List (ToolMessage J))

module _ {J : Type 0} where
  unfoldable pub enqueue : List (Message J) → Queues J → Queues J
  enqueue [] q = q
  enqueue (tool t ∷ ms) q = enqueue ms (put q t.tool_call_id (get_or q t.tool_call_id [] ++ t ∷ []))
  enqueue (_ ∷ ms) q = enqueue ms q

  -- The calls' ids, without those that are absent or empty.
  unfoldable pub ids : List (Call J) → List String
  unfolding or_string
  ids [] = []
  ids (c ∷ cs) = elim (or_string c.id none) [ none ↦ ids cs | some i ↦ i ∷ ids cs ]

  unfoldable pub placeholder : String → Call J → ToolMessage J
  unfolding synthetic_content
  placeholder i c = record {
    tool_call_id = i;
    content = text (synthetic_content c);
    name = some c.name;
    status = "error";
  }

  -- The result for one call: the next of its queue, or a placeholder.
  unfoldable pub result_from :
      String → Call J → List (ToolMessage J) → Queues J → ToolMessage J × Queues J
  unfolding placeholder
  result_from i c [] q = (placeholder i c, q)
  result_from i c (t ∷ ts) q = (t, put q i ts)

  -- The loop over the calls of one message.
  unfoldable pub results_for : List (Call J) → Queues J → List (Message J) × Queues J
  unfolding or_string result_from
  results_for [] q = ([], q)
  results_for (c ∷ cs) q = elim (or_string c.id none) [
    | none ↦ results_for cs q
    | some i ↦
        let (t, q') = result_from i c (get_or q i []) q in
        let (ms, q'') = results_for cs q' in (tool t ∷ ms, q'')
  ]

module _ {J : Type 0} (loads : String → Option (Args J)) where
  unfoldable pub tool_call_ids : List (Message J) → List String
  unfolding ids message_tool_calls
  tool_call_ids [] = []
  tool_call_ids (ai a ∷ ms) = ids (message_tool_calls loads a) ++ tool_call_ids ms
  tool_call_ids (_ ∷ ms) = tool_call_ids ms

  unfoldable pub patch_from : List String → List (Message J) → Queues J → List (Message J)
  unfolding results_for message_tool_calls
  patch_from known [] q = []
  patch_from known (tool t ∷ ms) q =
      let rest = patch_from known ms q in
      if contains t.tool_call_id known then rest else tool t ∷ rest
  patch_from known (ai a ∷ ms) q =
      let (results, q') = results_for (message_tool_calls loads a) q in
      ai a ∷ results ++ patch_from known ms q'
  patch_from known (other v ∷ ms) q = other v ∷ patch_from known ms q

  unfoldable pub patched : List (Message J) → List (Message J)
  unfolding patch_from tool_call_ids enqueue
  patched ms = patch_from (tool_call_ids ms) ms (enqueue ms [])

  -- `none` where the messages are as they should be.
  unfoldable pub build_patched_messages :
      ⦃e : Eq (Message J)⦄ → List (Message J) → Option (List (Message J))
  unfolding patched
  build_patched_messages ms = if same_all (patched ms) ms then none else some (patched ms)

  -- The messages with which `wrap_model_call` calls the handler.
  unfoldable pub model_messages : ⦃e : Eq (Message J)⦄ → List (Message J) → List (Message J)
  unfolding build_patched_messages
  model_messages ms = elim (build_patched_messages ms) [ none ↦ ms | some p ↦ p ]
