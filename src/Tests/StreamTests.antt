-- ===== src/Tests/StreamTests.antt =====
-- Runs of packages/harness/deerflow/runtime/stream_bridge/memory.py with a buffer of two events.
use deer_seek_backend.Prelude.{
  ◌≡◌, refl, String, true, false, some, List, [], ◌∷◌, arith, string_eq, take, drop,
}
use deer_seek_backend.Dict.{get_or}
use deer_seek_backend.Stream.{
  StreamEvent, RunStream, new_bridge, new_stream, append_event, resolve_start_offset, caught_up,
  poll,
}
use deer_seek_backend.Stream.Log.{Retains, Tracks}
use deer_seek_backend.Stream.Resume.{resume_after}
use deer_seek_backend.Stream.Delivery.{
  Session, start, Reach, here, step, publishes, receives, delivery_exact, drain, drain_ended,
  poll_log, turn_at,
}

abbrev e0 : StreamEvent String
e0 = record { id = (7, 0); event = "values"; payload = "a" }

abbrev e1 : StreamEvent String
e1 = record { id = (8, 1); event = "values"; payload = "b" }

abbrev e2 : StreamEvent String
e2 = record { id = (9, 2); event = "values"; payload = "c" }

abbrev log : List (StreamEvent String)
log = e0 ∷ e1 ∷ e2 ∷ []

-- The buffer after three events, and the same after the end of the run.
abbrev lagging : RunStream String
lagging = record { events = e1 ∷ e2 ∷ []; ended = false; start_offset = 1 }

abbrev over : RunStream String
over = record { events = e1 ∷ e2 ∷ []; ended = true; start_offset = 1 }

lagging-Retains : Retains 2 log lagging
lagging-Retains = record { window = refl; complete = refl; bounded = omega arith; tight = refl }

over-Retains : Retains 2 log over
over-Retains = record { window = refl; complete = refl; bounded = omega arith; tight = refl }

new-Tracks : Tracks {D = String} (new_bridge 2) "r" []
unfolding get_or
new-Tracks = record {
  log = record { window = refl; complete = refl; bounded = omega arith; tight = refl };
  counter = refl;
  numbered = tt;
}

resume_after_example : resolve_start_offset lagging (some (8, 1)) ≡ caught_up lagging 2
resume_after_example = resume_after lagging-Retains (refl, (refl, (refl, tt))) 1 e1 refl

poll_log_example : poll lagging 0 ≡ turn_at log false (caught_up lagging 0)
poll_log_example = poll_log lagging-Retains 0

drain_ended_example : drain 4 over 0 ≡ some (drop (caught_up over 0) log)
unfolding caught_up
drain_ended_example = drain_ended over-Retains 4 0 refl (omega arith)

abbrev one_sent : Session String
one_sent = record { stream = append_event 2 new_stream e0; log = e0 ∷ []; next = 0; received = [] }

abbrev one_received : Session String
one_received = record one_sent { next = 1; received = e0 ∷ [] }

one_received-Reach : Reach 2 start one_received
unfolding append_event poll caught_up
one_received-Reach = step (step here (publishes start e0)) (receives one_sent e0 1 refl)

delivery_exact_example : one_received.received ≡ take 1 (e0 ∷ [])
delivery_exact_example = delivery_exact one_received one_received-Reach (omega arith)
