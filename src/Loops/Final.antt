-- ===== src/Loops/Final.antt =====
-- What the last message of a stopped run is replaced by.
use deer_seek_backend.Prelude.{
  ℕ, ◌≡◌, ◌≢◌, refl, sym, ◌∙◌, String, false, Option, none, some, List, [], ◌==◌, string_eq, nat_eq,
  arith, Bool-cases, inl, inr, eq_iff,
}
use deer_seek_backend.Dict.{Dict, get, has, pop}
use deer_seek_backend.Dict.Laws.{get-put, has-pop}
use deer_seek_backend.Loops.{Config, Loops, Runtime}
use deer_seek_backend.Loops.Track.{ToolCall, Verdict, quiet, warn, stop}
use deer_seek_backend.Loops.Hooks.{
  Message, Value, string, other, after_model, replacement, stripped, last, append_text, stop_reason,
  track_and_check,
}

-- A message with no trace of its tool calls.
pub record IsFinal {J : Type 0} (m : Message J) : Type 0 where
  pub no_calls : m.tool_calls ≡ []
  pub no_raw_calls : has m.additional_kwargs "tool_calls" ≡ false
  pub no_function : has m.additional_kwargs "function_call" ≡ false
  pub other_reason : get m.response_metadata "finish_reason" ≢ some (string "tool_calls")

-- What a hook may put in the place of the last message.
abbrev pub Replaces : {J : Type 0} → Option (Message J) → Type 0
Replaces none = Unit
Replaces (some m) = IsFinal m

module _ {J : Type 0} where
  other_string :
      (s : String)
      → (s == "tool_calls") ≡ false
      → ◌≢◌ {A = Option (Value J)} (some (string s)) (some (string "tool_calls"))
  other_string s differs e = ground (arith, e, differs, eq_iff s "tool_calls")

  reason-stop_reason :
      (o : Option (Value J)) (d : Dict String (Value J))
      → get d "finish_reason" ≡ o
      → get (stop_reason o d) "finish_reason" ≢ some (string "tool_calls")
  unfolding stop_reason
  reason-stop_reason none d e x = cc
  reason-stop_reason (some (other j)) d e x = cc
  reason-stop_reason (some (string s)) d e x = elim (Bool-cases (s == "tool_calls")) [
    | inl calls ↦
        let reason : get (stop_reason (some (string s)) d) "finish_reason" ≡ some (string "stop") =
          rw (calls, get-put d "finish_reason" "finish_reason" (string "stop")) refl in
        other_string "stop" refl (sym reason ∙ x)
    | inr differs ↦
        let reason : get (stop_reason (some (string s)) d) "finish_reason" ≡ some (string s) =
          rw differs e in
        other_string s differs (sym reason ∙ x)
  ]

  replacement-Replaces : (v : Verdict) (m : Option (Message J)) → Replaces (replacement v m)
  unfolding replacement stripped append_text
  replacement-Replaces quiet m = tt
  replacement-Replaces (warn w) m = tt
  replacement-Replaces (stop s) none = tt
  replacement-Replaces (stop s) (some m) = record {
    no_calls = refl;
    no_raw_calls = ground (
      arith,
      has-pop (pop m.additional_kwargs "tool_calls") "function_call" "tool_calls",
      has-pop m.additional_kwargs "tool_calls" "tool_calls",
    );
    no_function =
        ground
          (arith, has-pop (pop m.additional_kwargs "tool_calls") "function_call" "function_call");
    other_reason =
        reason-stop_reason (get m.response_metadata "finish_reason") m.response_metadata refl;
  }

  -- Whatever the middleware puts in the place of the last message has no trace of its tool calls: not in
  -- `tool_calls`, nor raw in `additional_kwargs`, nor in the finish reason.
  pub after_model-Replaces :
      (call_hash : List (ToolCall J) → String) (str : ℕ → String) (c : Config) (r : Runtime)
      (messages : List (Message J)) (s : Loops)
      → Replaces (after_model call_hash str c r messages s).0
  unfolding after_model
  after_model-Replaces call_hash str c r messages s =
      replacement-Replaces (track_and_check call_hash str c r messages s).0 (last messages)
