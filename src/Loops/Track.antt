-- ===== src/Loops/Track.antt =====
-- `_track_and_check` of loop_detection_middleware.py: the two layers that detect a loop. A parameter
-- `call_hash` stands for `_hash_tool_calls`, whose digest comes from `json` and `hashlib`, and `str` for
-- Python's conversion of a number.
use deer_seek_backend.Prelude.{
  ℕ, zero, suc, String, Bool, ◌&&◌, not, none, some, List, [], ◌∷◌, ◌++◌, ◌==◌, string_eq, nat_eq,
  if◌then◌else◌, keep, take_last, length, contains, count, ltb, leb,
}
use Prim.Native.String.{◌++◌ as join}
use deer_seek_backend.Dict.{Dict, get, get_or, put, pop}
use deer_seek_backend.Loops.{Config, Loops, touch_thread}

pub record ToolCall (J : Type 0) : Type 0 where
  pub name : String
  pub args : J

-- What a check says: nothing, a warning, or that the run has to stop.
pub data Verdict : Type 0 where
  quiet : Verdict
  warn stop : String → Verdict

abbrev pub warning_msg : String
warning_msg =
    "[LOOP DETECTED] You are repeating the same tool calls. Stop calling tools and produce your final answer now. If you cannot complete the task, summarize what you accomplished so far."

abbrev pub hard_stop_msg : String
hard_stop_msg =
    "[FORCED STOP] Repeated tool calls exceeded the safety limit. Producing final answer with results collected so far."

-- `history[-window:]` where the history is longer; `[-0:]` is all of it.
abbrev pub trim : ℕ → List String → List String
trim zero hs = hs
trim (suc w) hs = if ltb (suc w) (length hs) then take_last (suc w) hs else hs

-- A set in its entry, which an empty set does not have.
unfoldable pub store_set :
    String → List String → Dict String (List String) → Dict String (List String)
store_set thread [] d = pop d thread
store_set thread (h ∷ hs) d = put d thread (h ∷ hs)

-- `warned_hashes.intersection_update(history)`, and what follows it.
unfoldable pub forget_old :
    String → List String → Dict String (List String) → Dict String (List String)
unfolding store_set
forget_old thread hist warned = elim (get warned thread) [
  | none ↦ warned
  | some hashes ↦ store_set thread (keep (λ h. contains h hist) hashes) warned
]

-- The texts of the second layer's warning and stop.
pub freq_warning : (ℕ → String) → String → ℕ → String
freq_warning str name n = join "[LOOP DETECTED] You have called " (
    join name (
      join " " (
        join (str n)
          " times without producing a final answer. Stop calling tools and produce your final answer now. If you cannot complete the task, summarize what you accomplished so far.")))

pub freq_stop : (ℕ → String) → String → ℕ → String
freq_stop str name n = join "[FORCED STOP] Tool " (
    join name (
      join " called " (
        join (str n)
          " times — exceeded the per-tool safety limit. Producing final answer with results collected so far.")))

-- The thresholds of a tool.
abbrev pub limits : Config → String → ℕ × ℕ
limits c name = get_or c.tool_freq_overrides name (c.tool_freq_warn, c.tool_freq_hard_limit)

module _ (thread : String) where
  abbrev pub calls_of : Loops → String → ℕ
  calls_of s name = get_or (get_or s.tool_freq thread []) name 0

  unfoldable pub count_call : String → Loops → Loops
  count_call name s = record s {
    tool_freq =
        put s.tool_freq thread (put (get_or s.tool_freq thread []) name (suc (calls_of s name)));
  }

  abbrev pub freq_warned : Loops → String → Bool
  freq_warned s name = contains name (get_or s.tool_freq_warned thread [])

  abbrev pub mark_freq_warned : String → Loops → Loops
  mark_freq_warned name s = record s {
    tool_freq_warned =
        put s.tool_freq_warned thread (get_or s.tool_freq_warned thread [] ++ name ∷ []);
  }

  abbrev pub hashes_of : Loops → List String
  hashes_of s = get_or s.history thread []

  abbrev pub is_warned : String → Loops → Bool
  is_warned h s = contains h (get_or s.warned thread [])

  abbrev pub mark_warned : String → Loops → Loops
  mark_warned h s = record s { warned = put s.warned thread (get_or s.warned thread [] ++ h ∷ []) }

-- The bookkeeping of one set of calls, up to the count.
unfoldable pub record_hash : Config → String → String → Loops → Loops
unfolding touch_thread forget_old
record_hash c thread h s =
    let s' = touch_thread c thread s in
    let hist = trim c.window_size (hashes_of thread s' ++ h ∷ []) in
    record s' { history = put s'.history thread hist; warned = forget_old thread hist s'.warned }

module _ {J : Type 0} (str : ℕ → String) (c : Config) (thread : String) where
  -- The second layer: the loop over the calls, by the tools' names.
  unfoldable pub check_freq : List (ToolCall J) → Loops → Verdict × Loops
  unfolding count_call freq_warning freq_stop
  check_freq [] s = (quiet, s)
  check_freq (tc ∷ tcs) s =
      let counted = count_call thread tc.name s in
      let n = calls_of thread counted tc.name in
      let skipped = check_freq tcs s in
      let passed = check_freq tcs counted in
      if tc.name == ""
      then skipped
      else if leb (limits c tc.name).1 n
      then (stop (freq_stop str tc.name n), counted)
      else if leb (limits c tc.name).0 n && not (freq_warned thread counted tc.name)
      then (warn (freq_warning str tc.name n), mark_freq_warned thread tc.name counted)
      else passed

  -- Both layers, on a set of calls with its hash.
  unfoldable pub check : String → List (ToolCall J) → Loops → Verdict × Loops
  unfolding check_freq record_hash
  check h tcs s =
      let s' = record_hash c thread h s in
      let n = count h (hashes_of thread s') in
      let second =
        check_freq tcs
          (record s' { tool_freq = put s'.tool_freq thread (get_or s'.tool_freq thread []) }) in
      if leb c.hard_limit n
      then (stop hard_stop_msg, s')
      else if leb c.warn_threshold n && not (is_warned thread h s')
      then (warn warning_msg, mark_warned thread h s')
      else second
