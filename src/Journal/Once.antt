-- ===== src/Journal/Once.antt =====
-- Tokens are counted once (journal.py).
use deer_seek_backend.Prelude.{
  suc, ◌+◌, ◌≡◌, refl, ap, ◌∙◌, arith, String, Bool, true, false, not, ◌&&◌, ◌||◌, List, [], ◌∷◌,
  ◌==◌, nat_eq, string_eq, eq_iff, contains, length, Distinct, All, ltb, if◌then◌else◌, Bool-cases,
  inl, inr,
}
use deer_seek_backend.Journal.Tokens.{
  Tag, subagent, middleware, lead_agent, other, Usage, Totals, External, identify_caller, total_of,
  add_bucket, add_usage, count_message, count_messages, on_llm_end, count_external, count_records,
  record_external_llm_usage_records,
}

pub data Op : Type 0 where
  ended : Bool → String → List Tag → List Usage → Op
  recorded : Bool → List External → Op

unfoldable pub step : Op → Totals → Totals
unfolding on_llm_end record_external_llm_usage_records
step (ended track rid tags messages) t = on_llm_end track rid tags messages t
step (recorded track rs) t = record_external_llm_usage_records track rs t

unfoldable pub run : List Op → Totals → Totals
unfolding step
run [] t = t
run (op ∷ ops) t = run ops (step op t)

-- The buckets make up the total, and a call is counted for each id, which is there once.
pub record IsBalanced (t : Totals) : Type 0 where
  pub buckets : t.lead_agent_tokens + t.subagent_tokens + t.middleware_tokens ≡ t.total_tokens
  pub calls : length t.counted_llm_run_ids ≡ t.llm_call_count
  pub ids : Distinct t.counted_llm_run_ids
  pub sources : Distinct t.counted_external_source_ids

add_usage-IsBalanced :
    (caller : Tag) (u : Usage) (t : Totals) → IsBalanced t → IsBalanced (add_usage caller u t)
unfolding add_usage add_bucket
add_usage-IsBalanced (subagent s) u t b = record {
  buckets = omega (arith, b.buckets);
  calls = b.calls;
  ids = b.ids;
  sources = b.sources;
}
add_usage-IsBalanced (middleware s) u t b = record {
  buckets = omega (arith, b.buckets);
  calls = b.calls;
  ids = b.ids;
  sources = b.sources;
}
add_usage-IsBalanced lead_agent u t b = record {
  buckets = omega (arith, b.buckets);
  calls = b.calls;
  ids = b.ids;
  sources = b.sources;
}
add_usage-IsBalanced (other s) u t b = record {
  buckets = omega (arith, b.buckets);
  calls = b.calls;
  ids = b.ids;
  sources = b.sources;
}

count_message-IsBalanced :
    (rid : String) (caller : Tag) (u : Usage) (t : Totals)
    → IsBalanced t
    → IsBalanced (count_message rid caller u t)
unfolding count_message
count_message-IsBalanced rid caller u t b =
    elim (Bool-cases (ltb 0 (total_of u) && not (contains rid t.counted_llm_run_ids))) [
      | inl new ↦ rw new (
          add_usage-IsBalanced caller u _ record {
            buckets = b.buckets;
            calls = ap suc b.calls;
            ids = ground (arith, new, b.ids);
            sources = b.sources;
          })
      | inr old ↦ rw old b
    ]

count_messages-IsBalanced :
    (rid : String) (caller : Tag) (us : List Usage) (t : Totals)
    → IsBalanced t
    → IsBalanced (count_messages rid caller us t)
unfolding count_messages
count_messages-IsBalanced rid caller [] t b = b
count_messages-IsBalanced rid caller (u ∷ us) t b =
    count_messages-IsBalanced rid caller us _ (count_message-IsBalanced rid caller u t b)

count_external-IsBalanced :
    (r : External) (t : Totals) → IsBalanced t → IsBalanced (count_external r t)
unfolding count_external
count_external-IsBalanced r t b =
    elim (Bool-cases (
      r.source_run_id == ""
      || contains r.source_run_id t.counted_external_source_ids
      || total_of r.usage == 0)) [
        | inl skip ↦ rw skip b
        | inr new ↦ rw new (
            add_usage-IsBalanced r.caller r.usage _ record {
              buckets = b.buckets;
              calls = b.calls;
              ids = b.ids;
              sources = ground (arith, new, b.sources);
            })
      ]

count_records-IsBalanced :
    (rs : List External) (t : Totals) → IsBalanced t → IsBalanced (count_records rs t)
unfolding count_records
count_records-IsBalanced [] t b = b
count_records-IsBalanced (r ∷ rs) t b =
    count_records-IsBalanced rs _ (count_external-IsBalanced r t b)

step-IsBalanced : (op : Op) (t : Totals) → IsBalanced t → IsBalanced (step op t)
unfolding step on_llm_end record_external_llm_usage_records
step-IsBalanced (ended true rid tags us) t b =
    count_messages-IsBalanced rid (identify_caller tags) us t b
step-IsBalanced (ended false rid tags us) t b = b
step-IsBalanced (recorded true rs) t b = count_records-IsBalanced rs t b
step-IsBalanced (recorded false rs) t b = b

-- After whatever callbacks, the tokens of the lead agent, the subagents and the middlewares make up
-- the total, and as many calls are counted as responses of different runs used tokens.
pub run-IsBalanced : (ops : List Op) (t : Totals) → IsBalanced t → IsBalanced (run ops t)
unfolding run
run-IsBalanced [] t b = b
run-IsBalanced (op ∷ ops) t b = run-IsBalanced ops (step op t) (step-IsBalanced op t b)

-- Whether a record would not be counted any more.
abbrev Counted : Totals → External → Type 0
Counted t r =
    (r.source_run_id == ""
      || contains r.source_run_id t.counted_external_source_ids
      || total_of r.usage == 0)
    ≡ true

count-Counted : (r : External) (t : Totals) → Counted t r → count_external r t ≡ t
unfolding count_external
count-Counted r t h = rw h refl

sources-add_usage :
    (caller : Tag) (u : Usage) (t : Totals)
    → (add_usage caller u t).counted_external_source_ids ≡ t.counted_external_source_ids
unfolding add_usage add_bucket
sources-add_usage (subagent s) u t = refl
sources-add_usage (middleware s) u t = refl
sources-add_usage lead_agent u t = refl
sources-add_usage (other s) u t = refl

sources-count_external :
    (r : External) (t : Totals)
    → (count_external r t).counted_external_source_ids ≡ (
        if r.source_run_id == ""
          || contains r.source_run_id t.counted_external_source_ids
          || total_of r.usage == 0
        then t.counted_external_source_ids
        else r.source_run_id ∷ t.counted_external_source_ids)
unfolding count_external
sources-count_external r t =
    elim (Bool-cases (
      r.source_run_id == ""
      || contains r.source_run_id t.counted_external_source_ids
      || total_of r.usage == 0)) [
        | inl skip ↦ rw skip refl
        | inr new ↦ rw new (sources-add_usage r.caller r.usage _)
      ]

Counted-stays :
    (r : External) (t : Totals) (s : External) → Counted t s → Counted (count_external r t) s
Counted-stays r t s h = ground (arith, h, sources-count_external r t)

counts_own : (r : External) (t : Totals) → Counted (count_external r t) r
counts_own r t = ground (arith, sources-count_external r t, eq_iff r.source_run_id r.source_run_id)

Counted-records :
    (rs : List External) (t : Totals) (s : External) → Counted t s → Counted (count_records rs t) s
unfolding count_records
Counted-records [] t s h = h
Counted-records (r ∷ rs) t s h = Counted-records rs (count_external r t) s (Counted-stays r t s h)

abbrev AllCounted : Totals → List External → Type 0
AllCounted t = All (Counted t)

records_counted : (rs : List External) (t : Totals) → AllCounted (count_records rs t) rs
unfolding count_records
records_counted [] t = tt
records_counted (r ∷ rs) t = (
  Counted-records rs (count_external r t) r (counts_own r t),
  records_counted rs (count_external r t),
)

counted_skipped : (rs : List External) (t : Totals) → AllCounted t rs → count_records rs t ≡ t
unfolding count_records
counted_skipped [] t h = refl
counted_skipped (r ∷ rs) t (here, rest) =
    ap (count_records rs) (count-Counted r t here) ∙ counted_skipped rs t rest

AllCounted-others :
    (rs others : List External) (t : Totals)
    → AllCounted t rs
    → AllCounted (count_records others t) rs
AllCounted-others [] others t h = tt
AllCounted-others (r ∷ rs) others t (here, rest) =
    (Counted-records others t r here, AllCounted-others rs others t rest)

-- Records of outside usage that come again, after whatever other records, add nothing.
pub records_once :
    (track : Bool) (rs others : List External) (t : Totals)
    → let before =
        record_external_llm_usage_records track others
          (record_external_llm_usage_records track rs t) in
      record_external_llm_usage_records track rs before ≡ before
unfolding record_external_llm_usage_records
records_once false rs others t = refl
records_once true rs others t =
    counted_skipped rs (count_records others (count_records rs t))
      (AllCounted-others rs others (count_records rs t) (records_counted rs t))
