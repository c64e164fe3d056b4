-- ===== src/LlmErrors/Call.antt =====
-- `wrap_model_call` and `awrap_model_call` of `LLMErrorHandlingMiddleware` (the two differ in the
-- `await`s alone). The model call is the parameter `handler`: what it does at each attempt, where
-- `bubbles` is `GraphBubbleUp`. The clock is read after each attempt, by `now`. The breaker is shared:
-- `others` is what other calls do to it during an attempt and the sleep before it.
pub mod Laws
use deer_seek_backend.Prelude.{
  ℕ, zero, suc, ◌+◌, Bool, true, false, ◌&&◌, Option, none, some, List, [], ◌∷◌, ltb, if◌then◌else◌,
}
use deer_seek_backend.LlmErrors.Breaker.{
  Breaker, check_circuit, record_success, record_failure, release_probe,
}
use deer_seek_backend.LlmErrors.Classify.{
  Failure, Reason, classify, RetryConfig, max_attempts_for, retry_delay_ms,
}

pub data Attempt (R : Type 0) : Type 0 where
  responds : R → Attempt R
  bubbles : Attempt R
  raises : Failure → Attempt R

-- What the middleware returns, or that it raises `GraphBubbleUp` again.
pub data Reply (R : Type 0) : Type 0 where
  response : R → Reply R
  circuit_fallback : Reply R
  error_fallback : Failure → Reason → Reply R
  bubbled : Reply R

-- The reply, the breaker after the call, the handler's calls, and the sleeps between them.
pub record Outcome (R : Type 0) : Type 0 where
  pub reply : Reply R
  pub breaker : Breaker
  pub calls : ℕ
  pub waits : List ℕ

-- `retriable and attempt < max_attempts`
unfoldable pub retries : RetryConfig → ℕ → Failure → Bool
retries c attempt f = (classify f).0 && ltb attempt (max_attempts_for c f)

-- A retriable error that is not retried any more counts against the circuit.
unfoldable pub give_up : ℕ → Failure → Breaker → Breaker
give_up now f b = if (classify f).0 then record_failure now b else b

module _ {R : Type 0} (c : RetryConfig) where
  -- How long the loop sleeps before the next attempt, if it makes one.
  unfoldable pub retry_wait : ℕ → Attempt R → Option ℕ
  unfolding retries
  retry_wait attempt (raises f) =
      if retries c attempt f then some (retry_delay_ms c attempt f) else none
  retry_wait attempt _ = none

  -- How the loop ends with an attempt, at the clock `now`.
  unfoldable pub finish : ℕ → ℕ → Breaker → Attempt R → Outcome R
  unfolding give_up
  finish attempt now b (responds r) = record {
    reply = response r;
    breaker = record_success b;
    calls = attempt;
    waits = [];
  }
  finish attempt now b bubbles = record {
    reply = bubbled;
    breaker = release_probe b;
    calls = attempt;
    waits = [];
  }
  finish attempt now b (raises f) = record {
    reply = error_fallback f (classify f).1;
    breaker = give_up now f b;
    calls = attempt;
    waits = [];
  }

abbrev pub after_wait : {R : Type 0} → ℕ → Option (Outcome R) → Option (Outcome R)
after_wait ms none = none
after_wait ms (some o) = some (record o { waits = ms ∷ o.waits })

module _ {R : Type 0} (c : RetryConfig) (handler : ℕ → Attempt R) (others : ℕ → Breaker → Breaker)
    (now : ℕ → ℕ) where
  -- The `while True` loop, from an attempt; `none` means that the fuel ran out.
  pub attempt_loop : ℕ → ℕ → Breaker → Option (Outcome R)
  unfolding retry_wait finish
  attempt_loop zero attempt b = none
  attempt_loop (suc fuel) attempt b = elim (retry_wait c attempt (handler attempt)) [
    | some ms ↦ after_wait ms (attempt_loop fuel (attempt + 1) (others attempt b))
    | none ↦ some (finish c attempt (now attempt) (others attempt b) (handler attempt))
  ]

  abbrev pub after_check : Bool × Breaker → Option (Outcome R)
  after_check (true, b) =
      some (record { reply = circuit_fallback; breaker = b; calls = 0; waits = [] })
  after_check (false, b) = attempt_loop (suc c.max_attempts) 1 b

  unfoldable pub wrap_model_call : Breaker → Option (Outcome R)
  wrap_model_call b = after_check (check_circuit (now 0) b)
