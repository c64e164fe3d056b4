-- ===== src/Memory/Queue.antt =====
-- packages/harness/deerflow/agents/memory/queue.py: `MemoryUpdateQueue`. What a method does under
-- `_lock` is one step. The messages of a conversation are of the type `M`; the time at which a
-- context was made is left out, since nothing reads it. `timer` is the delay of the timer that the
-- queue refers to. The queue's methods only compare keys, which are of any type `K` with an equality.
pub mod Enqueue
pub mod Pending
use deer_seek_backend.Prelude.{
  ℕ, String, Bool, true, false, not, ◌||◌, Option, none, some, List, [], ◌∷◌, ◌++◌, ◌==◌, Eq,
  string_eq, option_eq, pair_eq, keep, if◌then◌else◌,
}

-- The thread, the user and the agent that an update is for.
abbrev pub Key : Type 0
Key = String × (Option String × Option String)

pub record Context (K M : Type 0) : Type 0 where
  pub key : K
  pub messages : M
  pub correction_detected : Bool
  pub reinforcement_detected : Bool

pub record Queue (K M : Type 0) : Type 0 where
  pub queue : List (Context K M)
  pub timer : Option ℕ
  pub processing : Bool

abbrev pub empty : {K M : Type 0} → Queue K M
empty = record { queue = []; timer = none; processing = false }

module _ {K M : Type 0} where
  unfoldable pub corrected : Option (Context K M) → Bool
  corrected none = false
  corrected (some c) = c.correction_detected

  unfoldable pub reinforced : Option (Context K M) → Bool
  reinforced none = false
  reinforced (some c) = c.reinforcement_detected

  -- The context of an update, with the signals of one that waits for the same key.
  unfoldable pub merged : Context K M → Option (Context K M) → Context K M
  unfolding corrected reinforced
  merged c old = record c {
    correction_detected = c.correction_detected || corrected old;
    reinforcement_detected = c.reinforcement_detected || reinforced old;
  }

  abbrev pub schedule_timer : ℕ → Queue K M → Queue K M
  schedule_timer delay q = record q { timer = some delay }

module _ {K M : Type 0} ⦃e : Eq K⦄ where
  -- The first context with the key.
  unfoldable pub find : K → List (Context K M) → Option (Context K M)
  find k [] = none
  find k (c ∷ cs) = if c.key == k then some c else find k cs

  -- `_enqueue_locked`
  unfoldable pub enqueue : Context K M → List (Context K M) → List (Context K M)
  unfolding merged find
  enqueue c cs = keep (λ d. not (d.key == c.key)) cs ++ merged c (find c.key cs) ∷ []

  unfoldable pub add : Bool → ℕ → Context K M → Queue K M → Queue K M
  unfolding enqueue
  add enabled debounce_seconds c q =
      if enabled
      then schedule_timer debounce_seconds (record q { queue = enqueue c q.queue })
      else q

  unfoldable pub add_nowait : Bool → Context K M → Queue K M → Queue K M
  unfolding enqueue
  add_nowait enabled c q =
      if enabled then schedule_timer 0 (record q { queue = enqueue c q.queue }) else q

module _ {K M : Type 0} where
  unfoldable pub take_queue : List (Context K M) → Queue K M → List (Context K M) × Queue K M
  take_queue [] q = ([], q)
  take_queue (c ∷ cs) q = (c ∷ cs, record { queue = []; timer = none; processing = true })

  -- The first locked part of `_process_queue`: the contexts that this call processes.
  unfoldable pub start_processing : Queue K M → List (Context K M) × Queue K M
  unfolding take_queue
  start_processing q = if q.processing then ([], schedule_timer 0 q) else take_queue q.queue q

  -- Its last part, after the updates, which may fail.
  unfoldable pub end_processing : Queue K M → Queue K M
  end_processing q = record q { processing = false }

  -- `flush`, up to its call of `_process_queue`: other calls may come in between.
  unfoldable pub flush : Queue K M → Queue K M
  flush q = record q { timer = none }

  unfoldable pub flush_nowait : Queue K M → Queue K M
  flush_nowait q = schedule_timer 0 q

  unfoldable pub clear : Queue K M → Queue K M
  clear q = record { queue = []; timer = none; processing = false }
