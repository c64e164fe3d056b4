-- ===== src/Loops/Preserve.antt =====
-- Every hook of the middleware, and `reset`, keeps the state bounded.
use deer_seek_backend.Prelude.{
  ℕ, suc, ◌≡◌, ◌≤◌, refl, String, true, ◌&&◌, not, Option, none, some, List, [], ◌∷◌, ◌++◌, ◌==◌,
  string_eq, pair_eq, keep, count, arith, Bool-cases, inl, inr, leb,
}
use deer_seek_backend.Dict.{Dict, get, get_or, has, put, pop}
use deer_seek_backend.Dict.Laws.{has-pop, get_or-pop, length-pop-le, pop-Distinct}
use deer_seek_backend.Loops.{
  Config, Key, Pending, Loops, Runtime, fresh, get_thread_id, get_run_id, pending_key,
  max_pending_warning_keys, drop_key, drop_keys, forget_thread, keys_of, queue_warning,
}
use deer_seek_backend.Loops.Delivery.{
  IsQueue, drop_key-IsQueue, drop_keys-IsQueue, queue_warning-IsQueue,
}
use deer_seek_backend.Loops.Track.{
  ToolCall, Verdict, quiet, warn, stop, record_hash, count_call, calls_of, limits, freq_warned,
  is_warned, hashes_of, check_freq, check,
}
use deer_seek_backend.Loops.Hooks.{
  Message, check_calls, track_message, queued, last, after_model, before_agent, after_agent,
  augment_request, reset, Event, run_starts, run_ends, model_answers, model_is_called, is_reset,
  handle, handle_all, track_and_check, drain,
}
use deer_seek_backend.Loops.Bounds.{IsBounded, Within}
use deer_seek_backend.Loops.Invariant.{
  tool_freq-IsBounded, freq_warned-IsBounded, warned-IsBounded, record_hash-IsBounded,
}

module _ {J : Type 0} (str : ℕ → String) (c : Config) (some_window : 1 ≤ c.window_size)
    (some_threads : 1 ≤ c.max_tracked_threads) (t : String) where
  check_freq-IsBounded :
      (tcs : List (ToolCall J)) (s : Loops)
      → has s.history t ≡ true
      → IsBounded c s
      → IsBounded c (check_freq str c t tcs s).1
  unfolding check_freq count_call
  check_freq-IsBounded [] s there k = k
  check_freq-IsBounded (tc ∷ tcs) s there k =
      let counted = count_call t tc.name s in
      let k' : IsBounded c counted =
        tool_freq-IsBounded c some_window t
          (put (get_or s.tool_freq t []) tc.name (suc (calls_of t s tc.name))) s there k in
      elim (Bool-cases (tc.name == "")) [
        | inl unnamed ↦ rw unnamed (check_freq-IsBounded tcs s there k)
        | inr named ↦ elim (Bool-cases (leb (limits c tc.name).1 (calls_of t counted tc.name))) [
          | inl hard ↦ rw (named, hard) k'
          | inr soft ↦
              elim (Bool-cases (
                leb (limits c tc.name).0 (calls_of t counted tc.name)
                && not (freq_warned t counted tc.name))) [
                  | inl warns ↦
                      rw (named, soft, warns)
                        (freq_warned-IsBounded c some_window t
                          (get_or s.tool_freq_warned t [] ++ tc.name ∷ []) counted there k')
                  | inr passes ↦
                      rw (named, soft, passes) (check_freq-IsBounded tcs counted there k')
                ]
        ]
      ]

  check-IsBounded :
      (h : String) (tcs : List (ToolCall J)) (s : Loops)
      → IsBounded c s
      → IsBounded c (check str c t h tcs s).1
  unfolding check
  check-IsBounded h tcs s k =
      let s' = record_hash c t h s in
      let (k', there) = record_hash-IsBounded c some_window t h s k some_threads in
      elim (Bool-cases (leb c.hard_limit (count h (hashes_of t s')))) [
        | inl hard ↦ rw hard k'
        | inr soft ↦
            elim (Bool-cases
              (leb c.warn_threshold (count h (hashes_of t s')) && not (is_warned t h s'))) [
                | inl warns ↦
                    rw (soft, warns)
                      (warned-IsBounded c some_window t (get_or s'.warned t [] ++ h ∷ []) s' there
                        k')
                | inr passes ↦
                    rw (soft, passes)
                      (check_freq-IsBounded tcs
                        (record s' { tool_freq = put s'.tool_freq t (get_or s'.tool_freq t []) })
                        there
                        (tool_freq-IsBounded c some_window t (get_or s'.tool_freq t []) s' there
                          k'))
              ]
      ]

pending-IsBounded :
    (c : Config) (p : Pending) (s : Loops)
    → IsQueue (max_pending_warning_keys c) p
    → IsBounded c s
    → IsBounded c (record s { pending = p })
pending-IsBounded c p s q k = record {
  tracked = record {
    distinct = k.tracked.distinct;
    windows = k.tracked.windows;
    warned = k.tracked.warned;
    counted = k.tracked.counted;
    freq_warned = k.tracked.freq_warned;
    queue = q;
  };
  threads = k.threads;
}

pub fresh-IsBounded : (c : Config) → IsBounded c fresh
unfolding has get get_or
fresh-IsBounded c = record {
  tracked = record {
    distinct = tt;
    windows = λ t. omega arith;
    warned = λ t. refl;
    counted = λ t. refl;
    freq_warned = λ t. refl;
    queue = record { same = λ k. refl; short = λ k. omega arith; few = omega arith };
  };
  threads = omega arith;
}

module _ (c : Config) (r : Runtime) (s : Loops) (k : IsBounded c s) where
  dropped-IsBounded : (ks : List Key) → IsBounded c (record s { pending = drop_keys ks s.pending })
  dropped-IsBounded ks =
      pending-IsBounded c (drop_keys ks s.pending) s
        (drop_keys-IsQueue (max_pending_warning_keys c) ks s.pending k.tracked.queue) k

  after_agent-IsBounded : IsBounded c (after_agent r s)
  unfolding after_agent
  after_agent-IsBounded =
      pending-IsBounded c (drop_key (pending_key r) s.pending) s
        (drop_key-IsQueue (max_pending_warning_keys c) (pending_key r) s.pending k.tracked.queue) k

  before_agent-IsBounded : IsBounded c (before_agent r s)
  unfolding before_agent
  before_agent-IsBounded =
      dropped-IsBounded
        (keep (λ j. not (j.1 == get_run_id r)) (keys_of (get_thread_id r) s.pending))

  queued-IsBounded : (v : Verdict) → IsBounded c (queued c r v s)
  unfolding queued
  queued-IsBounded quiet = k
  queued-IsBounded (stop reason) = k
  queued-IsBounded (warn w) =
      pending-IsBounded c (queue_warning c (pending_key r) w s.pending) s
        (queue_warning-IsQueue c (pending_key r) w s.pending k.tracked.queue) k

module _ (c : Config) (t : String) (s : Loops) (k : IsBounded c s) where
  forgotten : Loops
  forgotten = forget_thread t (record s { history = pop s.history t })

  Within-pops :
      {V : Type 0} (d : Dict String V) → Within d s.history → Within (pop d t) (pop s.history t)
  Within-pops d w j = ground (arith, w j, has-pop d t j, has-pop s.history t j)

  forgotten-IsBounded : IsBounded c forgotten
  unfolding forgotten forget_thread
  forgotten-IsBounded = record {
    tracked = record {
      distinct = pop-Distinct s.history t k.tracked.distinct;
      windows = λ i. ground (arith, get_or-pop s.history t i [], k.tracked.windows i);
      warned = Within-pops s.warned k.tracked.warned;
      counted = Within-pops s.tool_freq k.tracked.counted;
      freq_warned = Within-pops s.tool_freq_warned k.tracked.freq_warned;
      queue =
          drop_keys-IsQueue (max_pending_warning_keys c) (keys_of t s.pending) s.pending
            k.tracked.queue;
    };
    threads = omega (arith, k.threads, length-pop-le s.history t);
  }

reset-IsBounded :
    (c : Config) (t : Option String) (s : Loops) → IsBounded c s → IsBounded c (reset t s)
unfolding reset forgotten
reset-IsBounded c none s k = fresh-IsBounded c
reset-IsBounded c (some t) s k = elim (Bool-cases (t == "")) [
  | inl empty ↦ rw empty (fresh-IsBounded c)
  | inr named ↦ rw named (forgotten-IsBounded c t s k)
]

module _ {J : Type 0} (call_hash : List (ToolCall J) → String) (str : ℕ → String) (c : Config)
    (some_window : 1 ≤ c.window_size) (some_threads : 1 ≤ c.max_tracked_threads) where
  check_calls-IsBounded :
      (t : String) (tcs : List (ToolCall J)) (s : Loops)
      → IsBounded c s
      → IsBounded c (check_calls call_hash str c t tcs s).1
  unfolding check_calls
  check_calls-IsBounded t [] s k = k
  check_calls-IsBounded t (tc ∷ tcs) s k =
      check-IsBounded str c some_window some_threads t (call_hash (tc ∷ tcs)) (tc ∷ tcs) s k

  track_message-IsBounded :
      (t : String) (m : Option (Message J)) (s : Loops)
      → IsBounded c s
      → IsBounded c (track_message call_hash str c t m s).1
  unfolding track_message
  track_message-IsBounded t none s k = k
  track_message-IsBounded t (some m) s k = elim (Bool-cases m.is_ai) [
    | inr other ↦ rw other k
    | inl ai ↦ rw ai (check_calls-IsBounded t m.tool_calls s k)
  ]

  handle-IsBounded :
      (e : Event J) (s : Loops) → IsBounded c s → IsBounded c (handle call_hash str c e s)
  unfolding handle after_model track_and_check augment_request drain after_agent
  handle-IsBounded (run_starts r) s k = before_agent-IsBounded c r s k
  handle-IsBounded (run_ends r) s k = after_agent-IsBounded c r s k
  handle-IsBounded (model_answers r messages) s k =
      queued-IsBounded c r (track_message call_hash str c (get_thread_id r) (last messages) s).1
        (track_message-IsBounded (get_thread_id r) (last messages) s k)
        (track_message call_hash str c (get_thread_id r) (last messages) s).0
  handle-IsBounded (model_is_called r messages) s k = after_agent-IsBounded c r s k
  handle-IsBounded (is_reset t) s k = reset-IsBounded c t s k

  -- With a window and a limit of threads of at least one, as the configuration has them, every sequence
  -- of hooks and resets keeps the state bounded: the threads, the histories and the queues of pending
  -- warnings by their limits, and the other maps by the threads.
  pub handle_all-IsBounded :
      (es : List (Event J)) (s : Loops)
      → IsBounded c s
      → IsBounded c (handle_all call_hash str c es s)
  unfolding handle_all
  handle_all-IsBounded [] s k = k
  handle_all-IsBounded (e ∷ es) s k = handle_all-IsBounded es _ (handle-IsBounded e s k)
