-- ===== src/Tests/MemoryTests.antt =====
-- Runs of packages/harness/deerflow/agents/memory/queue.py.
use deer_seek_backend.Prelude.{
  ◌≡◌, refl, String, true, false, none, some, string_eq, option_eq, pair_eq,
}
use deer_seek_backend.Memory.Queue.{Key, Context, empty, find, add}
use deer_seek_backend.Memory.Queue.Pending.{
  World, added, step, Wanted, want, nothing, Refines, step-Refines,
}

abbrev correction : Context Key String
correction = record {
  key = ("thread", (none, some "agent"));
  messages = "a";
  correction_detected = true;
  reinforcement_detected = false;
}

abbrev later : Context Key String
later = record correction { messages = "b"; correction_detected = false }

abbrev quiet : World Key String
quiet = record { queue = empty; flushing = 0 }

empty-Refines : Refines quiet nothing
unfolding find
empty-Refines = record { once = tt; waits = λ k. refl; armed = λ h idle. refl }

abbrev waiting : World Key String
waiting = record quiet { queue = add true 30 correction empty }

abbrev wanted : Wanted Key String
wanted = want correction nothing

waiting-Refines : Refines waiting wanted
unfolding add step
waiting-Refines = (step-Refines (added true 30 correction) quiet nothing empty-Refines).1

step-Refines_example :
    ((k : Key) → find k (step (added true 30 later) waiting).0 ≡ nothing k)
    × Refines (step (added true 30 later) waiting).1 (want later wanted)
step-Refines_example = step-Refines (added true 30 later) waiting wanted waiting-Refines
