-- ===== src/LlmErrors/Breaker/Laws.antt =====
-- The breaker's invariant, when it trips, how long it stays open, and that it admits one probe.
use deer_seek_backend.Prelude.{
  map, length, if◌then◌else◌, ℕ, ◌+◌, ◌≤◌, ◌<◌, ◌≡◌, ◌≢◌, refl, Bool, true, false, List, [], ◌∷◌,
  arith, ltb, All,
}
use deer_seek_backend.LlmErrors.Breaker.{
  State, closed, open_circuit, half_open, Breaker, init, check_circuit, record_success,
  record_failure, release_probe, checks,
}

-- In the closed state no probe is out and the failures counted are below the threshold; in the open
-- state no probe is out and they have reached it; in the half-open state they have reached it.
abbrev pub StateValid : State → Breaker → Type 0
StateValid closed b = (b.probe_in_flight ≡ false) × (b.failure_count < b.failure_threshold)
StateValid open_circuit b = (b.probe_in_flight ≡ false) × (b.failure_threshold ≤ b.failure_count)
StateValid half_open b = b.failure_threshold ≤ b.failure_count

pub record IsValid (b : Breaker) : Type 0 where
  pub at_state : StateValid b.state b
  pub positive : 0 < b.failure_threshold

-- One call of a method, by any thread.
pub data Method : Type 0 where
  checked failed : ℕ → Method
  succeeded bubbled : Method

abbrev pub after : Breaker → Method → Breaker
after b (checked now) = (check_circuit now b).1
after b (failed now) = record_failure now b
after b succeeded = record_success b
after b bubbled = release_probe b

pub run : Breaker → List Method → Breaker
run b [] = b
run b (m ∷ ms) = run (after b m) ms

after-IsValid : (b : Breaker) (m : Method) → IsValid b → IsValid (after b m)
unfolding check_circuit record_success record_failure release_probe
after-IsValid b (checked now) v = ground (arith, v.at_state, v.positive)
after-IsValid b (failed now) v = ground (arith, v.at_state, v.positive)
after-IsValid b succeeded v = ground (arith, v.positive)
after-IsValid b bubbled v = ground (arith, v.at_state, v.positive)

-- Every sequence of the methods, by any threads, keeps the breaker valid.
pub methods-IsValid : (b : Breaker) (ms : List Method) → IsValid b → IsValid (run b ms)
unfolding run
methods-IsValid b [] v = v
methods-IsValid b (m ∷ ms) v = methods-IsValid (after b m) ms (after-IsValid b m v)

init-IsValid : (threshold recovery : ℕ) → 0 < threshold → IsValid (init threshold recovery)
init-IsValid threshold recovery h = ground arith

abbrev pub fast_all : List ℕ → List Bool
fast_all = map (λ _. true)

-- While a probe is out, every other call fails fast and changes nothing, at whatever time.
pub probe_exclusive :
    (b : Breaker) (times : List ℕ)
    → b.state ≡ half_open
    → b.probe_in_flight ≡ true
    → checks times b ≡ (fast_all times, b)
unfolding checks
probe_exclusive b [] h p = refl
probe_exclusive b (now ∷ later) h p = ground (arith, probe_exclusive b later h p)

-- Before its time is over an open circuit fails every call fast, and stays as it is.
pub open_fails_fast :
    (b : Breaker) (times : List ℕ)
    → b.state ≡ open_circuit
    → All (λ now. now < b.open_until) times
    → checks times b ≡ (fast_all times, b)
unfolding checks
open_fails_fast b [] h early = refl
open_fails_fast b (now ∷ later) h early = ground (arith, open_fails_fast b later h early.1)

-- The first call after that time is let through as the one probe: those behind it fail fast.
pub one_probe :
    (b : Breaker) (now : ℕ) (later : List ℕ)
    → b.state ≡ open_circuit
    → b.open_until ≤ now
    → (checks (now ∷ later) b).0 ≡ false ∷ fast_all later
unfolding checks
one_probe b now later h over = ground (
  arith,
  probe_exclusive (record b { state = half_open; probe_in_flight = true }) later refl refl,
)

failures_closed :
    (b : Breaker) (times : List ℕ)
    → IsValid b
    → b.state ≢ half_open
    → (run b (map failed times)).state
      ≡ (if ltb (b.failure_count + length times) b.failure_threshold then closed else open_circuit)
unfolding run record_failure
failures_closed b [] v h = ground (arith, v.at_state, v.positive)
failures_closed b (now ∷ later) v h = ground (
  arith,
  v.at_state,
  v.positive,
  failures_closed (record_failure now b) later (after-IsValid b (failed now) v),
)

-- From a fresh breaker the circuit opens with the failure that reaches the threshold, no sooner,
-- and more failures keep it open.
pub trips_at_threshold :
    (threshold recovery : ℕ) (times : List ℕ)
    → 0 < threshold
    → (run (init threshold recovery) (map failed times)).state
      ≡ (if ltb (length times) threshold then closed else open_circuit)
trips_at_threshold threshold recovery times h =
    let fresh = init threshold recovery in
    ground (arith, failures_closed fresh times (init-IsValid threshold recovery h))
