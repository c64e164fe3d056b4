-- ===== src/Loops/Warn.antt =====
-- The life of a warning: queued, delivered once at the end of the next request of its run, and never in
-- another run.
use deer_seek_backend.Prelude.{
  ℕ, zero, suc, ◌≡◌, ◌≤◌, ◌-◌, refl, ◌∙◌, String, true, false, ◌&&◌, not, List, [], ◌∷◌, ◌++◌, ◌==◌,
  string_eq, pair_eq, if◌then◌else◌, keep, take, drop, length, contains, without, contains-append,
  contains-keep, length-append, arith, beq_refl, Bool-cases, inl, inr,
}
use deer_seek_backend.Dict.{keys, get_or}
use deer_seek_backend.Dict.Laws.{get_or-put, get_or-pop, contains-keys, get_or_absent}
use deer_seek_backend.Loops.{
  Config, Key, Pending, Loops, Runtime, pending_key, get_thread_id, get_run_id, keys_of,
  max_pending_warnings_per_run, max_pending_warning_keys, drop_key, drop_keys, prune, queue_warning,
  add_warning, newest_warnings,
}
use deer_seek_backend.Loops.Hooks.{
  Message, augment_request, before_agent, after_agent, drain, with_warnings,
}

abbrev pub warnings_of : Key → Pending → List String
warnings_of k p = get_or p.warnings k []

-- Dropping keys empties their queues and leaves the others.
drop_keys-warnings :
    (ks : List Key) (p : Pending) (k : Key)
    → warnings_of k (drop_keys ks p) ≡ (if contains k ks then [] else warnings_of k p)
unfolding drop_keys drop_key
drop_keys-warnings [] p k = refl
drop_keys-warnings (j ∷ ks) p k =
    ground (arith, drop_keys-warnings ks (drop_key j p) k, get_or-pop p.warnings j k [])

contains-take :
    (n : ℕ) (k : Key) (ks : List Key) → contains k ks ≡ false → contains k (take n ks) ≡ false
contains-take zero k ks h = refl
contains-take (suc n) k [] h = refl
contains-take (suc n) k (j ∷ ks) h = ground (arith, contains-take n k ks)

not_candidate : (k : Key) (ks : List Key) → contains k (without k ks) ≡ false
not_candidate k [] = refl
not_candidate k (j ∷ ks) = ground (arith, not_candidate k ks)

abbrev candidates_of : Config → Key → Pending → List Key
candidates_of c k p = take (length p.order - max_pending_warning_keys c) (without k p.order)

prune-protected :
    (c : Config) (k : Key) (p : Pending) → warnings_of k (prune c k p) ≡ warnings_of k p
unfolding prune
prune-protected c k p =
    drop_keys-warnings (candidates_of c k p) p k
    ∙ rw
        (contains-take (length p.order - max_pending_warning_keys c) k (without k p.order)
          (not_candidate k p.order))
        refl

contains-drop_snoc :
    (n : ℕ) (w : String) (ws : List String)
    → n ≤ length ws
    → contains w (drop n (ws ++ w ∷ [])) ≡ true
contains-drop_snoc zero w ws h = ground (arith, contains-append w ws (w ∷ []), beq_refl w)
contains-drop_snoc (suc n) w [] h = absurd (omega (arith, h))
contains-drop_snoc (suc n) w (v ∷ ws) h = contains-drop_snoc n w ws (omega (arith, h))

newest-contains :
    (w : String) (ws : List String)
    → length ws ≤ max_pending_warnings_per_run
    → contains w (newest_warnings (add_warning w ws)) ≡ true
newest-contains w ws short = elim (Bool-cases (contains w ws)) [
  | inl there ↦
      let none_over : length ws - 4 ≡ 0 = omega (arith, short) in rw (there, none_over) there
  | inr new ↦ rw new (
      contains-drop_snoc (length (ws ++ w ∷ []) - 4) w ws
        (omega (arith, length-append ws (w ∷ []), short)))
]

module _ (c : Config) (k : Key) (w : String) (p : Pending) where
  -- A warning that is queued for a run waits there, however full the queues are.
  pub queue_warning-contains :
      length (warnings_of k p) ≤ max_pending_warnings_per_run
      → contains w (warnings_of k (queue_warning c k w p)) ≡ true
  unfolding queue_warning
  queue_warning-contains short =
      rw
        (
          prune-protected c k _,
          get_or-put p.warnings k k (newest_warnings (add_warning w (warnings_of k p))) [],
          beq_refl k,
        )
        (newest-contains w (warnings_of k p) short)

module _ {J : Type 0} (r : Runtime) (s : Loops) where
  -- A request has the run's warnings in at most one message after all others, and the next request of
  -- the run has none of them again.
  pub augment_once :
      (messages later : List (Message J))
      → ((augment_request r messages s).0
          ≡ with_warnings (warnings_of (pending_key r) s.pending) messages)
        × ((augment_request r later (augment_request r messages s).1).0 ≡ later)
  unfolding augment_request drain drop_key
  augment_once messages later = (
    refl,
    rw (get_or-pop s.pending.warnings (pending_key r) (pending_key r) [], beq_refl (pending_key r))
        refl,
  )

module _ (r : Runtime) (s : Loops) where
  -- At the start of a run the warnings of the thread's other runs are dropped, and all others are kept.
  pub before_agent-warnings :
      (k : Key)
      → warnings_of k (before_agent r s).pending ≡ (
          if k.0 == get_thread_id r && not (k.1 == get_run_id r)
          then []
          else warnings_of k s.pending)
  unfolding before_agent
  before_agent-warnings k =
      drop_keys-warnings
        (keep (λ j. not (j.1 == get_run_id r)) (keys_of (get_thread_id r) s.pending)) s.pending k
      ∙ rw
          (
            contains-keep (λ j. not (j.1 == get_run_id r)) k (keys_of (get_thread_id r) s.pending),
            contains-keep (λ j. j.0 == get_thread_id r) k (keys s.pending.warnings),
            contains-keys s.pending.warnings k,
          )
          (ground (arith, get_or_absent s.pending.warnings k []))

  -- At the end of a run its own warnings are dropped, and all others are kept.
  pub after_agent-warnings :
      (k : Key)
      → warnings_of k (after_agent r s).pending
        ≡ (if pending_key r == k then [] else warnings_of k s.pending)
  unfolding after_agent drop_key
  after_agent-warnings k = get_or-pop s.pending.warnings (pending_key r) k []
