-- ===== src/Journal/Tokens.antt =====
-- The tokens of a run (journal.py): what its models used, by callers, each response counted once. A
-- tag of a callback is told apart by its prefix. Of a response there is the id of its run, with the
-- usage of each of its messages.
use deer_seek_backend.Prelude.{
  ℕ, suc, ◌+◌, String, Bool, not, ◌&&◌, ◌||◌, List, [], ◌∷◌, ◌==◌, nat_eq, string_eq, contains, ltb,
  if◌then◌else◌,
}

pub data Tag : Type 0 where
  subagent middleware : String → Tag
  lead_agent : Tag
  other : String → Tag

pub record Usage : Type 0 where
  pub input_tokens : ℕ
  pub output_tokens : ℕ
  pub total_tokens : ℕ

pub record Totals : Type 0 where
  pub total_input_tokens : ℕ
  pub total_output_tokens : ℕ
  pub total_tokens : ℕ
  pub llm_call_count : ℕ
  pub lead_agent_tokens : ℕ
  pub subagent_tokens : ℕ
  pub middleware_tokens : ℕ
  pub counted_llm_run_ids : List String
  pub counted_external_source_ids : List String

-- A record of usage from outside, such as a subagent's.
pub record External : Type 0 where
  pub source_run_id : String
  pub caller : Tag
  pub usage : Usage

abbrev pub no_tokens : Totals
no_tokens = record {
  total_input_tokens = 0;
  total_output_tokens = 0;
  total_tokens = 0;
  llm_call_count = 0;
  lead_agent_tokens = 0;
  subagent_tokens = 0;
  middleware_tokens = 0;
  counted_llm_run_ids = [];
  counted_external_source_ids = [];
}

unfoldable pub identify_caller : List Tag → Tag
identify_caller [] = lead_agent
identify_caller (other t ∷ tags) = identify_caller tags
identify_caller (tag ∷ tags) = tag

unfoldable pub total_of : Usage → ℕ
total_of u = if u.total_tokens == 0 then u.input_tokens + u.output_tokens else u.total_tokens

-- The totals with a usage, in the bucket of its caller.
unfoldable pub add_bucket : Tag → ℕ → Totals → Totals
add_bucket (subagent s) n t = record t { subagent_tokens = t.subagent_tokens + n }
add_bucket (middleware s) n t = record t { middleware_tokens = t.middleware_tokens + n }
add_bucket _ n t = record t { lead_agent_tokens = t.lead_agent_tokens + n }

unfoldable pub add_usage : Tag → Usage → Totals → Totals
unfolding add_bucket total_of
add_usage caller u t = add_bucket caller (total_of u) (record t {
  total_input_tokens = t.total_input_tokens + u.input_tokens;
  total_output_tokens = t.total_output_tokens + u.output_tokens;
  total_tokens = t.total_tokens + total_of u;
})

-- One message of a response, in `on_llm_end`
unfoldable pub count_message : String → Tag → Usage → Totals → Totals
unfolding add_usage
count_message rid caller u t =
    if ltb 0 (total_of u) && not (contains rid t.counted_llm_run_ids)
    then add_usage caller u (record t {
      llm_call_count = suc t.llm_call_count;
      counted_llm_run_ids = rid ∷ t.counted_llm_run_ids;
    })
    else t

unfoldable pub count_messages : String → Tag → List Usage → Totals → Totals
unfolding count_message
count_messages rid caller [] t = t
count_messages rid caller (u ∷ us) t = count_messages rid caller us (count_message rid caller u t)

-- The tokens of `on_llm_end`
unfoldable pub on_llm_end : Bool → String → List Tag → List Usage → Totals → Totals
unfolding count_messages identify_caller
on_llm_end track rid tags messages t =
    if track then count_messages rid (identify_caller tags) messages t else t

unfoldable pub count_external : External → Totals → Totals
unfolding add_usage
count_external r t =
    if r.source_run_id == ""
      || contains r.source_run_id t.counted_external_source_ids
      || total_of r.usage == 0
    then t
    else add_usage r.caller r.usage
        (record t { counted_external_source_ids = r.source_run_id ∷ t.counted_external_source_ids })

unfoldable pub count_records : List External → Totals → Totals
unfolding count_external
count_records [] t = t
count_records (r ∷ rs) t = count_records rs (count_external r t)

unfoldable pub record_external_llm_usage_records : Bool → List External → Totals → Totals
unfolding count_records
record_external_llm_usage_records track rs t = if track then count_records rs t else t
