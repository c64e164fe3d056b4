-- ===== src/EventStore.antt =====
-- packages/harness/deerflow/runtime/events/store/memory.py: the events of each thread in the order of
-- their sequence numbers, with the messages among them kept beside for pagination. `D` is the type
-- of contents and metadata, which the store passes through; `now` is the clock at the call.
pub mod Bisect
pub mod Invariant
pub mod Pages
use deer_seek_backend.Prelude.{
  ℕ, suc, ◌+◌, ◌-◌, max, String, Bool, true, false, ◌&&◌, not, Option, none, some, List, [], ◌∷◌,
  ◌++◌, ltb, ◌==◌, string_eq, nat_eq, if◌then◌else◌, length, take, drop, take_last, keep, contains,
}
use deer_seek_backend.Dict.{Dict, get_or, has, put, pop}
use Bisect.{bisect_left, bisect_right}

pub record Event (D : Type 0) : Type 0 where
  pub thread_id : String
  pub run_id : String
  pub event_type : String
  pub category : String
  pub content : D
  pub metadata : D
  pub seq : ℕ
  pub created_at : ℕ

pub record Store (D : Type 0) : Type 0 where
  pub events : Dict String (List (Event D))
  pub messages : Dict String (List (Event D))
  pub seq_counters : Dict String ℕ

-- The keyword arguments of `put`.
pub record NewEvent (D : Type 0) : Type 0 where
  pub thread_id : String
  pub run_id : String
  pub event_type : String
  pub category : String
  pub content : D
  pub metadata : Option D
  pub created_at : Option ℕ

abbrev pub get_or_else : {A : Type 0} → Option A → A → A
get_or_else none a = a
get_or_else (some b) a = b

-- `xs[-n:]`, which is the whole list for n = 0
abbrev pub last_slice : {A : Type 0} → ℕ → List A → List A
last_slice n xs = if n == 0 then xs else take_last n xs

module _ {D : Type 0} where
  abbrev pub empty : Store D
  empty = record { events = []; messages = []; seq_counters = [] }

  abbrev pub is_message : Event D → Bool
  is_message e = e.category == "message"

  abbrev pub events_of : Store D → String → List (Event D)
  events_of s thread = get_or s.events thread []

  abbrev pub messages_of : Store D → String → List (Event D)
  messages_of s thread = get_or s.messages thread []

  abbrev pub counter_of : Store D → String → ℕ
  counter_of s thread = get_or s.seq_counters thread 0

  unfoldable pub next_seq : Store D → String → Store D × ℕ
  next_seq s thread =
      let next_val = counter_of s thread + 1 in
      (record s { seq_counters = put s.seq_counters thread next_val }, next_val)

  -- `metadata or {}` is `no_metadata` where none is given.
  unfoldable pub put_one : D → ℕ → Store D → NewEvent D → Store D × Event D
  unfolding next_seq
  put_one no_metadata now s n =
      let (s', seq) = next_seq s n.thread_id in
      let e : Event D = record {
        thread_id = n.thread_id;
        run_id = n.run_id;
        event_type = n.event_type;
        category = n.category;
        content = n.content;
        metadata = get_or_else n.metadata no_metadata;
        seq = seq;
        created_at = get_or_else n.created_at now;
      } in
      let messages =
        if is_message e
        then put s'.messages n.thread_id (messages_of s' n.thread_id ++ e ∷ [])
        else s'.messages in
      (
        record s' {
          events = put s'.events n.thread_id (events_of s' n.thread_id ++ e ∷ []);
          messages = messages;
        },
        e,
      )

  unfoldable pub put_batch : D → ℕ → Store D → List (NewEvent D) → Store D × List (Event D)
  unfolding put_one
  put_batch no_metadata now s [] = (s, [])
  put_batch no_metadata now s (n ∷ ns) =
      let (s', e) = put_one no_metadata now s n in
      let (s'', es) = put_batch no_metadata now s' ns in (s'', e ∷ es)

  -- The window of `list_messages`, by the two optional bounds.
  unfoldable pub message_window : List (Event D) → ℕ → Option ℕ → Option ℕ → List (Event D)
  message_window messages limit (some before) _ =
      let hi = bisect_left (λ e. e.seq) messages before in drop (hi - limit) (take hi messages)
  message_window messages limit none (some after) =
      let lo = bisect_right (λ e. e.seq) messages after in take limit (drop lo messages)
  message_window messages limit none none = last_slice limit messages

  unfoldable pub list_messages : Store D → String → ℕ → Option ℕ → Option ℕ → List (Event D)
  unfolding message_window
  list_messages s thread limit before after =
      message_window (messages_of s thread) limit before after

  of_types : Option (List String) → List (Event D) → List (Event D)
  of_types none es = es
  of_types (some types) es = keep (λ e. contains e.event_type types) es

  unfoldable pub list_events : Store D → String → String → Option (List String) → ℕ → List (Event D)
  unfolding of_types
  list_events s thread run types limit =
      take limit (of_types types (keep (λ e. e.run_id == run) (events_of s thread)))

  before_seq : Option ℕ → List (Event D) → List (Event D)
  before_seq none es = es
  before_seq (some n) es = keep (λ e. ltb e.seq n) es

  after_seq : Option ℕ → List (Event D) → List (Event D)
  after_seq none es = es
  after_seq (some n) es = keep (λ e. ltb n e.seq) es

  cut : ℕ → Option ℕ → List (Event D) → List (Event D)
  cut limit (some _) es = take limit es
  cut limit none es = if ltb limit (length es) then last_slice limit es else es

  unfoldable pub list_messages_by_run :
      Store D → String → String → ℕ → Option ℕ → Option ℕ → List (Event D)
  unfolding before_seq after_seq cut
  list_messages_by_run s thread run limit before after =
      let filtered = keep (λ e. e.run_id == run && is_message e) (events_of s thread) in
      cut limit after (after_seq after (before_seq before filtered))

  unfoldable pub count_messages : Store D → String → ℕ
  count_messages s thread = length (messages_of s thread)

  unfoldable pub delete_by_thread : Store D → String → Store D × ℕ
  delete_by_thread s thread = (
    record {
      events = pop s.events thread;
      messages = pop s.messages thread;
      seq_counters = pop s.seq_counters thread;
    },
    length (events_of s thread),
  )

  unfoldable pub delete_by_run : Store D → String → String → Store D × ℕ
  delete_by_run s thread run =
      let all_events = events_of s thread in
      let remaining = keep (λ e. not (e.run_id == run)) all_events in
      if length all_events == 0 then (s, 0) else (
        record s {
          events = put s.events thread remaining;
          messages = put s.messages thread (keep is_message remaining);
        },
        length all_events - length remaining,
      )
