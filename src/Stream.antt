-- ===== src/Stream.antt =====
-- packages/harness/deerflow/runtime/stream_bridge/{base,memory}.py: the per-run event log between
-- an agent worker and its SSE consumers. An event's id is the pair that the text "{ts}-{seq}"
-- spells. A subscriber is its `next_offset`; `poll` is one turn of its loop up to the yield or the
-- wait, which the environment ends by a notification or by the heartbeat timeout.
pub mod Log
pub mod Resume
pub mod Delivery
use deer_seek_backend.Prelude.{
  ℕ, suc, ◌+◌, ◌-◌, String, Bool, true, false, Option, none, some, List, [], ◌∷◌, ◌++◌, ltb, Eq,
  ◌==◌, if◌then◌else◌, length, drop, get_elem?, string_eq, pair_eq, nat_eq,
}
use deer_seek_backend.Dict.{Dict, get, has, get_or, put, pop}

abbrev pub EventId : Type 0
EventId = ℕ × ℕ

pub record StreamEvent (D : Type 0) : Type 0 where
  pub id : EventId
  pub event : String
  pub payload : D

-- What `subscribe` yields: an event of the log, or one of the two sentinels.
pub data Item (D : Type 0) : Type 0 where
  entry : StreamEvent D → Item D
  heartbeat : Item D
  end_of_stream : Item D

pub record RunStream (D : Type 0) : Type 0 where
  pub events : List (StreamEvent D)
  pub ended : Bool
  pub start_offset : ℕ

pub record Bridge (D : Type 0) : Type 0 where
  pub maxsize : ℕ
  pub streams : Dict String (RunStream D)
  pub counters : Dict String ℕ

-- One turn of the subscriber's loop: it yields an event and goes on at an offset, it yields the end
-- sentinel and returns, or it waits (a timeout then yields `heartbeat`).
pub data Turn (D : Type 0) : Type 0 where
  yields : StreamEvent D → ℕ → Turn D
  ends : Turn D
  waits : ℕ → Turn D

module _ {D : Type 0} where
  abbrev pub new_stream : RunStream D
  new_stream = record { events = []; ended = false; start_offset = 0 }

  abbrev pub new_bridge : ℕ → Bridge D
  new_bridge n = record { maxsize = n; streams = []; counters = [] }

  unfoldable pub get_or_create_stream : Bridge D → String → Bridge D
  get_or_create_stream b run_id = if has b.streams run_id then b else record b {
    streams = put b.streams run_id new_stream;
    counters = put b.counters run_id 0;
  }

  -- The stream that `_get_or_create_stream` returns.
  abbrev pub stream_of : Bridge D → String → RunStream D
  stream_of b run_id = get_or b.streams run_id new_stream

  -- `ts` is the clock at the call.
  unfoldable pub next_id : Bridge D → String → ℕ → Bridge D × EventId
  next_id b run_id ts =
      let n = get_or b.counters run_id 0 + 1 in
      (record b { counters = put b.counters run_id n }, (ts, n - 1))

  -- `for index, entry in enumerate(stream.events): if entry.id == last_event_id`
  unfoldable pub index_of : EventId → List (StreamEvent D) → Option ℕ
  index_of i [] = none
  index_of i (e ∷ es) =
      let later : Option ℕ = elim (index_of i es) [ none ↦ none | some n ↦ some (suc n) ] in
      if e.id == i then some 0 else later

  unfoldable pub resolve_start_offset : RunStream D → Option EventId → ℕ
  resolve_start_offset s none = s.start_offset
  resolve_start_offset s (some i) = elim (index_of i s.events) [
    | some index ↦ s.start_offset + index + 1
    | none ↦ s.start_offset
  ]

  -- The locked part of `publish`.
  unfoldable pub append_event : ℕ → RunStream D → StreamEvent D → RunStream D
  append_event maxsize s e =
      let events = s.events ++ e ∷ [] in
      if ltb maxsize (length events)
      then (let overflow = length events - maxsize in
          record s { events = drop overflow events; start_offset = s.start_offset + overflow })
      else record s { events = events }

  unfoldable pub publish : Bridge D → ℕ → String → String → D → Bridge D
  publish b ts run_id event payload =
      let b' = get_or_create_stream b run_id in
      let (b'', i) = next_id b' run_id ts in
      let e : StreamEvent D = record { id = i; event = event; payload = payload } in
      record b'' {
        streams = put b''.streams run_id (append_event b.maxsize (stream_of b' run_id) e);
      }

  unfoldable pub publish_end : Bridge D → String → Bridge D
  publish_end b run_id =
      let b' = get_or_create_stream b run_id in
      record b' { streams = put b'.streams run_id (record (stream_of b' run_id) { ended = true }) }

  -- "fell behind retained buffer"
  unfoldable pub caught_up : RunStream D → ℕ → ℕ
  caught_up s next = if ltb next s.start_offset then s.start_offset else next

  unfoldable pub poll : RunStream D → ℕ → Turn D
  unfolding caught_up
  poll s next =
      let n = caught_up s next in
      elim (get_elem? s.events (n - s.start_offset)) [
        | some e ↦ yields e (suc n)
        | none ↦ if s.ended then ends else waits n
      ]

  unfoldable pub cleanup : Bridge D → String → Bridge D
  cleanup b run_id = record b { streams = pop b.streams run_id; counters = pop b.counters run_id }

  unfoldable pub close : Bridge D → Bridge D
  close b = record b { streams = []; counters = [] }
