-- ===== src/Tests/LlmTests.antt =====
-- Runs of packages/harness/deerflow/agents/middlewares/llm_error_handling_middleware.py.
use deer_seek_backend.Prelude.{
  ◌≡◌, refl, ℕ, zero, suc, ◌+◌, String, true, false, none, some, [], ◌∷◌, arith,
}
use deer_seek_backend.LlmErrors.Breaker.{
  Breaker, open_circuit, init, check_circuit, record_failure, checks,
}
use deer_seek_backend.LlmErrors.Breaker.Laws.{IsValid}
use deer_seek_backend.LlmErrors.Classify.{Failure, classify, default_config, matches_any}
use deer_seek_backend.LlmErrors.Call.{Attempt, responds, raises, wrap_model_call}
use deer_seek_backend.LlmErrors.Call.Laws.{Returns, FollowsCall, wrap_model_call_total, probe_lost}

abbrev busy_error : Failure
busy_error = record {
  class_name = "APITimeoutError";
  lowered = "request timed out";
  error_code = "none";
  status_code = none;
  retry_after_ms = none;
}

abbrev bad_request : Failure
bad_request = record {
  class_name = "BadRequestError";
  lowered = "prompt too long";
  error_code = "none";
  status_code = some 400;
  retry_after_ms = none;
}

-- The provider is busy once, and then answers.
abbrev busy_once : ℕ → Attempt String
busy_once (suc zero) = raises busy_error
busy_once _ = responds "answer"

abbrev rejects : ℕ → Attempt String
rejects _ = raises bad_request

abbrev tripped : Breaker
tripped = record {
  failure_threshold = 2;
  recovery_timeout = 10;
  failure_count = 2;
  open_until = 15;
  state = open_circuit;
  probe_in_flight = false;
}

-- While the first attempt sleeps, another call fails.
abbrev one_fails : ℕ → Breaker → Breaker
one_fails (suc zero) b = record_failure 1 b
one_fails _ b = b

wrap_model_call_total_example :
    Returns
      (FollowsCall default_config busy_once one_fails (λ n. n) (check_circuit 0 (init 2 10)))
      (wrap_model_call default_config busy_once one_fails (λ n. n) (init 2 10))
wrap_model_call_total_example =
    wrap_model_call_total default_config busy_once one_fails (λ n. n) (init 2 10)

-- While the probe is out, other calls check the circuit.
abbrev others_check : ℕ → Breaker → Breaker
others_check _ b = (checks (21 ∷ 22 ∷ []) b).1

probe_lost_example :
    Returns
      (λ o. (o.calls ≡ 1) × ((checks (100 ∷ 1000 ∷ []) o.breaker).0 ≡ true ∷ true ∷ []))
      (wrap_model_call default_config rejects others_check (λ n. n + 20) tripped)
unfolding classify matches_any
probe_lost_example =
    probe_lost default_config rejects others_check (λ n. n + 20) tripped bad_request (21 ∷ 22 ∷ [])
      (100 ∷ 1000 ∷ []) refl (omega arith) refl refl refl

tripped-IsValid : IsValid tripped
tripped-IsValid = record { at_state = (refl, omega arith); positive = omega arith }
