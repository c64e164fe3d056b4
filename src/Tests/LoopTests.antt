-- ===== src/Tests/LoopTests.antt =====
-- Runs of packages/harness/deerflow/agents/middlewares/loop_detection_middleware.py.
use deer_seek_backend.Prelude.{
  ◌≡◌, refl, ◌+◌, suc, leb, ℕ, String, true, none, some, List, [], ◌∷◌, arith, string_eq,
}
use deer_seek_backend.Dict.{get, get_or, has}
use deer_seek_backend.Loops.{Config, Loops, fresh, Runtime, queue_warning}
use deer_seek_backend.Loops.Track.{ToolCall, stop, hard_stop_msg, check, limits, calls_of}
use deer_seek_backend.Loops.Hooks.{
  Message, Event, run_starts, run_ends, model_answers, model_is_called, plain, handle_all,
}
use deer_seek_backend.Loops.Bounds.{IsBounded}
use deer_seek_backend.Loops.Preserve.{handle_all-IsBounded, fresh-IsBounded}
use deer_seek_backend.Loops.Limits.{repeated, repeats_stop}
use deer_seek_backend.Loops.Unseen.{Ready}
use deer_seek_backend.Loops.Frequency.{Round, rounds, one_call, is_stop, calls_count_across_runs}

-- Two equal calls warn, and three stop the run.
abbrev config : Config
config = record {
  warn_threshold = 2;
  hard_limit = 3;
  window_size = 5;
  max_tracked_threads = 2;
  tool_freq_warn = 4;
  tool_freq_hard_limit = 5;
  tool_freq_overrides = [];
}

abbrev str : ℕ → String
str n = "many"

abbrev search_call : ToolCall String
search_call = record { name = "web_search"; args = "deer" }

abbrev hash_of : List (ToolCall String) → String
hash_of calls = "hash"

abbrev answer : Message String
answer = record {
  is_ai = true;
  name = none;
  content = plain "searching";
  tool_calls = search_call ∷ [];
  additional_kwargs = [];
  response_metadata = [];
}

abbrev here : Runtime
here = record { thread_id = some "t"; run_id = some "r1" }

abbrev next_run : Runtime
next_run = record { thread_id = some "t"; run_id = some "r2" }

abbrev turn : List (Event String)
turn =
    run_starts here
    ∷ model_answers here (answer ∷ [])
    ∷ model_is_called here (answer ∷ [])
    ∷ model_answers here (answer ∷ [])
    ∷ model_answers here (answer ∷ [])
    ∷ run_ends here
    ∷ []

handle_all-IsBounded_example : IsBounded config (handle_all hash_of str config turn fresh)
handle_all-IsBounded_example =
    handle_all-IsBounded hash_of str config (omega arith) (omega arith) turn fresh
      (fresh-IsBounded config)

repeats_stop_example :
    (check str config "t" "hash"
      (search_call ∷ [])
      (repeated str config "t" "hash" (search_call ∷ []) 2 fresh)).0
    ≡ stop hard_stop_msg
repeats_stop_example =
    repeats_stop str config "t" "hash" (search_call ∷ []) 2 fresh refl (omega arith)

abbrev narrow : Config
narrow = record config { window_size = 2 }

-- Two searches in an earlier run of the thread, and one in each of two further runs.
abbrev searched : Loops
searched = record fresh {
  history = ("t", "h1" ∷ "h2" ∷ []) ∷ [];
  tool_freq = ("t", ("web_search", 2) ∷ []) ∷ [];
}

abbrev fifth : String
fifth = "winter"

abbrev a_round : String → Round String
a_round h = record { hash = h; args = h; ended = here; started = next_run }

searched-Ready : Ready "t" ("h3" ∷ "h4" ∷ "h5" ∷ []) searched
unfolding has get get_or
searched-Ready = record { tracked = refl; unseen = (refl, (refl, (refl, tt))) }

calls_count_across_runs_example :
    is_stop
      (check str config "t" "h5"
        (one_call "web_search" fifth)
        (rounds str config "t" "web_search" (a_round "h3" ∷ a_round "h4" ∷ []) searched)).0
    ≡ leb (limits config "web_search").1 (suc (2 + calls_of "t" searched "web_search"))
calls_count_across_runs_example =
    calls_count_across_runs str config "t" "web_search" (a_round "h3" ∷ a_round "h4" ∷ []) "h5"
      fifth searched (omega arith) (omega arith) refl (refl, (refl, (refl, tt))) searched-Ready

abbrev warned : Loops
warned = record fresh { pending = queue_warning config ("t", "r1") "stop searching" fresh.pending }
