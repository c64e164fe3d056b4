-- ===== src/Mcp/Teardown.antt =====
-- How session_pool.py shuts an owner task down, and what the task does (`_run_session`).
use deer_seek_backend.Prelude.{
  ◌≡◌, ◌≢◌, arith, Bool, true, false, not, ◌&&◌, ◌⊎◌, inl, inr, Option, none, some, List, [], ◌∷◌,
  if◌then◌else◌,
}

-- The event loop of an owner, as the caller finds it.
pub data LoopState : Type 0 where
  is_closed is_current is_running is_idle : LoopState

-- What is done to an owner: its close event is set, it is cancelled, the caller waits for its end.
pub record Effect : Type 0 where
  pub sets_close : Bool
  pub cancels : Bool
  pub waits : Bool

abbrev pub no_effect : Effect
no_effect = record { sets_close = false; cancels = false; waits = false }

abbrev pub shutdown : Bool → Effect
shutdown cancel = record { sets_close = true; cancels = cancel; waits = true }

abbrev pub signal : Bool → Effect
signal cancel = record { sets_close = true; cancels = cancel; waits = false }

unfoldable pub signal_close : LoopState → Effect
signal_close is_closed = no_effect
signal_close _ = signal false

unfoldable pub shutdown_entry : LoopState → Bool → Effect
shutdown_entry is_closed cancel = no_effect
shutdown_entry is_current cancel = shutdown cancel
shutdown_entry is_running cancel = shutdown cancel
shutdown_entry is_idle cancel = signal cancel

-- The second phase of `get_session`
unfoldable pub shutdown_evicted : LoopState → Bool → Effect
unfolding shutdown_entry signal_close
shutdown_evicted is_current cancel = shutdown cancel
shutdown_evicted state cancel = if cancel then shutdown_entry state true else signal_close state

-- The loop over the owners in `close_all_sync`
unfoldable pub shutdown_sync : LoopState → Bool → Effect
shutdown_sync is_closed cancel = no_effect
shutdown_sync is_current cancel = signal cancel
shutdown_sync is_running cancel = shutdown cancel
shutdown_sync is_idle cancel = shutdown cancel

unfoldable pub is_open : LoopState → Bool
is_open is_closed = false
is_open _ = true

-- An owner on an open loop is told to close, and is cancelled exactly if it may still be creating its
-- session. One on a closed loop is left alone, and never waited for.
pub record IsShutDown (state : LoopState) (cancel : Bool) (effect : Effect) : Type 0 where
  pub told : effect.sets_close ≡ is_open state
  pub cancelled : effect.cancels ≡ (is_open state && cancel)
  pub no_hang : (effect.waits && not (is_open state)) ≡ false

-- All three ways to shut an owner down do this, whatever its loop does.
pub every_way-IsShutDown :
    (state : LoopState) (cancel : Bool)
    → IsShutDown state cancel (shutdown_entry state cancel)
      × IsShutDown state cancel (shutdown_evicted state cancel)
      × IsShutDown state cancel (shutdown_sync state cancel)
unfolding shutdown_entry shutdown_evicted shutdown_sync signal_close is_open
every_way-IsShutDown is_closed true = grind arith
every_way-IsShutDown is_closed false = grind arith
every_way-IsShutDown is_current true = grind arith
every_way-IsShutDown is_current false = grind arith
every_way-IsShutDown is_running true = grind arith
every_way-IsShutDown is_running false = grind arith
every_way-IsShutDown is_idle true = grind arith
every_way-IsShutDown is_idle false = grind arith

-- The future through which the owner hands its session over.
pub data Ready (S E : Type 0) : Type 0 where
  pending : Ready S E
  result : S → Ready S E
  failed : E → Ready S E

pub data Event : Type 0 where
  entered exited : Event

module _ {S E : Type 0} where
  unfoldable pub set_result : S → Ready S E → Ready S E
  set_result s pending = result s
  set_result s r = r

  unfoldable pub set_exception : E → Ready S E → Ready S E
  set_exception e pending = failed e
  set_exception e r = r

  -- Initialising raises, or the session is served until it is told to close or the wait raises.
  unfoldable pub serve : S → Option E → Option E → Ready S E → Ready S E
  unfolding set_result set_exception
  serve s (some e) waiting ready = set_exception e ready
  serve s none none ready = set_result s ready
  serve s none (some e) ready = set_exception e (set_result s ready)

  -- What entering, initialising and waiting come to decides what the task does. An error of the exit
  -- is logged.
  unfoldable pub run_session : S ⊎ E → Option E → Option E → Ready S E → List Event × Ready S E
  unfolding serve set_exception
  run_session (inr e) initialised waiting ready = ([], set_exception e ready)
  run_session (inl s) initialised waiting ready =
      (entered ∷ exited ∷ [], serve s initialised waiting ready)

  -- Whatever raises, the callers that wait for the owner's future are not left waiting.
  pub run_session_answers :
      (opened : S ⊎ E) (initialised waiting : Option E) (ready : Ready S E)
      → (run_session opened initialised waiting ready).1 ≢ pending
  unfolding run_session serve set_result set_exception
  run_session_answers (inr e) i w pending = cc
  run_session_answers (inr e) i w (result s) = cc
  run_session_answers (inr e) i w (failed f) = cc
  run_session_answers (inl s) (some e) w pending = cc
  run_session_answers (inl s) (some e) w (result t) = cc
  run_session_answers (inl s) (some e) w (failed f) = cc
  run_session_answers (inl s) none none ready = ground arith
  run_session_answers (inl s) none (some e) ready = ground arith
