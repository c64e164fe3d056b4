-- ===== src/Loops.antt =====
-- packages/harness/deerflow/agents/middlewares/loop_detection_middleware.py: the state of
-- `LoopDetectionMiddleware` and its bookkeeping. Every method holds `_lock`, so that a call is one
-- step. A set is the list of its elements, and an `OrderedDict` with no values the list of its keys.
pub mod Track
pub mod Hooks
pub mod Bounds
pub mod Delivery
pub mod Final
pub mod Frequency
pub mod Unseen
pub mod Limits
pub mod Preserve
pub mod Invariant
pub mod Stop
pub mod Warn
use deer_seek_backend.Prelude.{
  ℕ, zero, suc, String, Bool, ◌&&◌, not, Option, none, some, List, [], ◌∷◌, ◌++◌, ◌==◌, string_eq,
  pair_eq, ◌-◌, ◌*◌, if◌then◌else◌, keep, take, drop, length, contains, without, ltb, max,
}
use deer_seek_backend.Dict.{Dict, keys, get_or, has, put, pop, move_to_end}

-- The constructor's arguments, from `LoopDetectionConfig`. An override is a pair of a warning and a
-- stop threshold.
pub record Config : Type 0 where
  pub warn_threshold : ℕ
  pub hard_limit : ℕ
  pub window_size : ℕ
  pub max_tracked_threads : ℕ
  pub tool_freq_warn : ℕ
  pub tool_freq_hard_limit : ℕ
  pub tool_freq_overrides : Dict String (ℕ × ℕ)

abbrev pub max_pending_warning_keys : Config → ℕ
max_pending_warning_keys c = max 1 (c.max_tracked_threads * 2)

abbrev pub max_pending_warnings_per_run : ℕ
max_pending_warnings_per_run = 4

-- A thread and a run of it.
abbrev pub Key : Type 0
Key = String × String

-- `_pending_warnings` and `_pending_warning_touch_order`
pub record Pending : Type 0 where
  pub warnings : Dict Key (List String)
  pub order : List Key

pub record Loops : Type 0 where
  pub history : Dict String (List String)
  pub warned : Dict String (List String)
  pub tool_freq : Dict String (Dict String ℕ)
  pub tool_freq_warned : Dict String (List String)
  pub pending : Pending

abbrev pub fresh : Loops
fresh = record {
  history = [];
  warned = [];
  tool_freq = [];
  tool_freq_warned = [];
  pending = record { warnings = []; order = [] };
}

-- The runtime's context, with what it has under "thread_id" and "run_id".
pub record Runtime : Type 0 where
  pub thread_id : Option String
  pub run_id : Option String

or_default : Option String → String
or_default none = "default"
or_default (some s) = if s == "" then "default" else s

unfoldable pub get_thread_id : Runtime → String
unfolding or_default
get_thread_id r = or_default r.thread_id

unfoldable pub get_run_id : Runtime → String
unfolding or_default
get_run_id r = or_default r.run_id

abbrev pub pending_key : Runtime → Key
pending_key r = (get_thread_id r, get_run_id r)

-- `_drop_pending_warning_key_locked`
unfoldable pub drop_key : Key → Pending → Pending
drop_key k p = record { warnings = pop p.warnings k; order = without k p.order }

unfoldable pub drop_keys : List Key → Pending → Pending
unfolding drop_key
drop_keys [] p = p
drop_keys (k ∷ ks) p = drop_keys ks (drop_key k p)

-- `_touch_pending_warning_key_locked`
abbrev pub touch : Key → List Key → List Key
touch k order = without k order ++ k ∷ []

-- `_prune_pending_warning_state_locked`
unfoldable pub prune : Config → Key → Pending → Pending
unfolding drop_keys
prune c protected p =
    drop_keys (take (length p.order - max_pending_warning_keys c) (without protected p.order)) p

abbrev pub add_warning : String → List String → List String
add_warning w ws = if contains w ws then ws else ws ++ w ∷ []

abbrev pub newest_warnings : List String → List String
newest_warnings ws = drop (length ws - max_pending_warnings_per_run) ws

-- `_queue_pending_warning`
unfoldable pub queue_warning : Config → Key → String → Pending → Pending
unfolding prune
queue_warning c k w p = prune c k (record {
  warnings = put p.warnings k (newest_warnings (add_warning w (get_or p.warnings k [])));
  order = touch k p.order;
})

-- The keys of a thread in `_pending_warnings`
abbrev pub keys_of : String → Pending → List Key
keys_of thread p = keep (λ k. k.0 == thread) (keys p.warnings)

-- What `_evict_if_needed` and `reset` forget with a thread, beside its history.
unfoldable pub forget_thread : String → Loops → Loops
unfolding drop_keys
forget_thread thread s = record s {
  warned = pop s.warned thread;
  tool_freq = pop s.tool_freq thread;
  tool_freq_warned = pop s.tool_freq_warned thread;
  pending = drop_keys (keys_of thread s.pending) s.pending;
}

evict_first : Dict String (List String) → Loops → Loops
unfolding forget_thread
evict_first [] s = s
evict_first ((thread, _) ∷ rest) s = forget_thread thread (record s { history = rest })

-- The loop of `_evict_if_needed`, with the number of threads as its fuel: each round takes one out.
pub evict_loop : Config → ℕ → Loops → Loops
unfolding evict_first
evict_loop c zero s = s
evict_loop c (suc n) s =
    let rest = evict_loop c n (evict_first s.history s) in
    if ltb c.max_tracked_threads (length s.history) then rest else s

unfoldable pub evict_if_needed : Config → Loops → Loops
unfolding evict_loop
evict_if_needed c s = evict_loop c (length s.history) s

-- Touch or create a thread's entry.
unfoldable pub touch_thread : Config → String → Loops → Loops
unfolding evict_if_needed
touch_thread c thread s =
    if has s.history thread
    then record s { history = move_to_end s.history thread }
    else evict_if_needed c (record s { history = put s.history thread [] })
