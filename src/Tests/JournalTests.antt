-- ===== src/Tests/JournalTests.antt =====
-- Runs of packages/harness/deerflow/runtime/journal.py. An event is a number, and two of them fill the
-- buffer.
use deer_seek_backend.Prelude.{ℕ, ◌≤◌, ◌≡◌, refl, arith, true, false, [], ◌∷◌, length, string_eq}
use deer_seek_backend.Journal.Buffer.{fresh, is_empty, flush_sync, put, flush_async, flush_loop}
use deer_seek_backend.Journal.Order.{
  World, started, puts, ends, Reach, here, next, InOrder, Reach-InOrder,
}
use deer_seek_backend.Journal.Flush.{flush_completes}
use deer_seek_backend.Journal.Tokens.{
  subagent, Usage, External, no_tokens, record_external_llm_usage_records, count_records,
  count_external, add_usage, add_bucket, total_of,
}
use deer_seek_backend.Journal.Once.{records_once}

abbrev one_event : World ℕ
one_event = record { journal = put 2 true 7 fresh; events = 7 ∷ [] }

abbrev two_events : World ℕ
two_events = record { journal = put 2 true 8 one_event.journal; events = 7 ∷ 8 ∷ [] }

-- The store refuses the batch.
abbrev refused : World ℕ
refused = record two_events { journal = flush_async false two_events.journal }

one_event-Reach : Reach 2 started one_event
one_event-Reach = next here (puts true 7 refl)

clear : one_event.journal.flushing ≡ []
unfolding put flush_sync
clear = refl

two_events-Reach : Reach 2 started two_events
two_events-Reach = next one_event-Reach (puts true 8 clear)

on_its_way : two_events.journal.pending ≡ true
unfolding put flush_sync is_empty
on_its_way = refl

refused-Reach : Reach 2 started refused
refused-Reach = next two_events-Reach (ends false on_its_way)

back_in_buffer : refused.journal.buffer ≡ 7 ∷ 8 ∷ []
unfolding put flush_sync is_empty flush_async
back_in_buffer = refl

Reach-InOrder_example : InOrder refused.journal (7 ∷ 8 ∷ [])
Reach-InOrder_example = Reach-InOrder 2 refused-Reach

idle : one_event.journal.pending ≡ false
unfolding put flush_sync
idle = refl

one_left : length one_event.journal.buffer ≤ 1
unfolding put flush_sync
one_left = omega arith

flush_completes_example :
    ((flush_loop 2 (true ∷ []) one_event.journal).0 ≡ true)
    × ((flush_loop 2 (true ∷ []) one_event.journal).1.store ≡ 7 ∷ [])
flush_completes_example =
    flush_completes 2 (true ∷ []) (omega arith) one_event-Reach idle clear (refl, tt) one_left

abbrev usage : Usage
usage = record { input_tokens = 3; output_tokens = 4; total_tokens = 0 }

abbrev of_subagent : External
of_subagent = record { source_run_id = "r"; caller = subagent "general"; usage = usage }

seven_tokens :
    (record_external_llm_usage_records true (of_subagent ∷ []) no_tokens).subagent_tokens ≡ 7
unfolding record_external_llm_usage_records count_records count_external add_usage add_bucket
    total_of
seven_tokens = refl

records_once_example :
    let before =
      record_external_llm_usage_records true []
        (record_external_llm_usage_records true (of_subagent ∷ []) no_tokens) in
    record_external_llm_usage_records true (of_subagent ∷ []) before ≡ before
records_once_example = records_once true (of_subagent ∷ []) [] no_tokens
