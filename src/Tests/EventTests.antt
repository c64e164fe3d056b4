-- ===== src/Tests/EventTests.antt =====
-- Runs of packages/harness/deerflow/runtime/events/store/memory.py.
use deer_seek_backend.Prelude.{◌≡◌, refl, ℕ, String, none, some, List, [], ◌∷◌, ◌++◌, arith}
use deer_seek_backend.Dict.{get_or, put}
use deer_seek_backend.EventStore.Bisect.{bisect, bisect_right}
use deer_seek_backend.EventStore.{put_one, Event, Store, NewEvent, empty, list_messages}
use deer_seek_backend.EventStore.Invariant.{IsValid, Call, puts, run, run_empty-IsValid}
use deer_seek_backend.EventStore.Pages.{requested, list_messages-requested}

abbrev message : String → NewEvent String
message text = record {
  thread_id = "t";
  run_id = "r";
  event_type = "ai_message";
  category = "message";
  content = text;
  metadata = none;
  created_at = some 3;
}

abbrev calls : List (Call String)
calls = puts 3 (message "a") ∷ puts 4 (message "b") ∷ puts 5 (message "c") ∷ []

abbrev filled : Store String
filled = run "" empty calls

run_empty-IsValid_example : IsValid filled
run_empty-IsValid_example = run_empty-IsValid "" calls

list_messages-requested_example :
    list_messages filled "t" 2 (some 3) none
    ≡ requested filled "t" (run_empty-IsValid "" calls) 2 (some 3) none
list_messages-requested_example =
    list_messages-requested filled "t" (run_empty-IsValid "" calls) 2 (some 3) none (omega arith)

abbrev stored : String → ℕ → Event String
stored text seq = record {
  thread_id = "t";
  run_id = "r";
  event_type = "ai_message";
  category = "message";
  content = text;
  metadata = "";
  seq = seq;
  created_at = 3;
}

first_page : list_messages filled "t" 2 none (some 0) ≡ (stored "a" 1 ∷ []) ++ stored "b" 2 ∷ []
unfolding list_messages run put_one get_or put bisect_right bisect
first_page = refl
