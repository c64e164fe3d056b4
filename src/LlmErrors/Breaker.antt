-- ===== src/LlmErrors/Breaker.antt =====
-- The circuit breaker of `LLMErrorHandlingMiddleware`. Each method holds `_circuit_lock`, so that a
-- method is one step; `now` is the clock at the call.
pub mod Laws
use deer_seek_backend.Prelude.{
  ℕ, suc, ◌+◌, Bool, true, false, List, [], ◌∷◌, ltb, leb, if◌then◌else◌,
}

pub data State : Type 0 where
  closed open_circuit half_open : State

pub record Breaker : Type 0 where
  pub failure_threshold : ℕ
  pub recovery_timeout : ℕ
  pub failure_count : ℕ
  pub open_until : ℕ
  pub state : State
  pub probe_in_flight : Bool

abbrev pub init : ℕ → ℕ → Breaker
init threshold recovery = record {
  failure_threshold = threshold;
  recovery_timeout = recovery;
  failure_count = 0;
  open_until = 0;
  state = closed;
  probe_in_flight = false;
}

-- The `half_open` part of `_check_circuit`.
unfoldable pub take_probe : Breaker → Bool × Breaker
take_probe b = if b.probe_in_flight then (true, b) else (false, record b { probe_in_flight = true })

check_state : State → ℕ → Breaker → Bool × Breaker
unfolding take_probe
check_state open_circuit now b =
    if ltb now b.open_until
    then (true, b)
    else take_probe (record b { state = half_open; probe_in_flight = false })
check_state half_open now b = take_probe b
check_state closed now b = (false, b)

-- `_check_circuit`: true means that the call fails fast.
unfoldable pub check_circuit : ℕ → Breaker → Bool × Breaker
unfolding check_state
check_circuit now b = check_state b.state now b

-- `_record_success`
unfoldable pub record_success : Breaker → Breaker
record_success b = record b {
  failure_count = 0;
  open_until = 0;
  state = closed;
  probe_in_flight = false;
}

trip : State → ℕ → Breaker → Breaker
trip open_circuit now b = record b { open_until = now + b.recovery_timeout }
trip _ now b = record b {
  open_until = now + b.recovery_timeout;
  state = open_circuit;
  probe_in_flight = false;
}

count_failure : ℕ → Breaker → Breaker
unfolding trip
count_failure now b =
    let counted = record b { failure_count = b.failure_count + 1 } in
    if leb b.failure_threshold counted.failure_count then trip b.state now counted else counted

fail_state : State → ℕ → Breaker → Breaker
unfolding count_failure
fail_state half_open now b = record b {
  open_until = now + b.recovery_timeout;
  state = open_circuit;
  probe_in_flight = false;
}
fail_state closed now b = count_failure now b
fail_state open_circuit now b = count_failure now b

-- `_record_failure`
unfoldable pub record_failure : ℕ → Breaker → Breaker
unfolding fail_state
record_failure now b = fail_state b.state now b

release_state : State → Breaker → Breaker
release_state half_open b = record b { probe_in_flight = false }
release_state _ b = b

-- What the handlers of `GraphBubbleUp` do under the lock before they raise it again.
unfoldable pub release_probe : Breaker → Breaker
unfolding release_state
release_probe b = release_state b.state b

-- Calls of `_check_circuit` at the given times, with no other method in between.
unfoldable pub checks : List ℕ → Breaker → List Bool × Breaker
unfolding check_circuit
checks [] b = ([], b)
checks (now ∷ later) b =
    let (fast, b') = check_circuit now b in let (rest, b'') = checks later b' in (fast ∷ rest, b'')
