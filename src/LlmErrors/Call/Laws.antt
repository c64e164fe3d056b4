-- ===== src/LlmErrors/Call/Laws.antt =====
-- What a wrapped model call returns and does to the breaker.
use deer_seek_backend.Prelude.{
  ap, ℕ, zero, suc, ◌+◌, ◌≤◌, ◌<◌, ◌≡◌, refl, ◌∙◌, ◌≢◌, Bool, true, false, Option, none, some, List,
  [], arith, max, length, Option-cases, inl, inr,
}
use native.Mathlib.Decide.{ℕ_discrete}
use deer_seek_backend.LlmErrors.Breaker.{open_circuit, Breaker, half_open, check_circuit, checks}
use deer_seek_backend.LlmErrors.Breaker.Laws.{fast_all, probe_exclusive}
use deer_seek_backend.LlmErrors.Classify.{Failure, classify, RetryConfig}
use deer_seek_backend.LlmErrors.Classify.Laws.{max_attempts_for-le}
use deer_seek_backend.LlmErrors.Call.{
  Attempt, responds, bubbles, raises, Outcome, circuit_fallback, attempt_loop, retry_wait, finish,
  after_wait, after_check, wrap_model_call,
}

abbrev pub Returns : {R : Type 0} → (Outcome R → Type 0) → Option (Outcome R) → Type 0
Returns P none = ⊥
Returns P (some o) = P o

finish_trace :
    {R : Type 0} (c : RetryConfig) (attempt t : ℕ) (b : Breaker) (a : Attempt R)
    → ((finish c attempt t b a).calls ≡ attempt) × ((finish c attempt t b a).waits ≡ [])
unfolding finish
finish_trace c attempt t b (responds r) = (refl, refl)
finish_trace c attempt t b bubbles = (refl, refl)
finish_trace c attempt t b (raises f) = (refl, refl)

finish_reply :
    {R : Type 0} (c : RetryConfig) (attempt t : ℕ) (b b' : Breaker) (a : Attempt R)
    → (finish c attempt t b a).reply ≡ (finish c attempt t b' a).reply
unfolding finish
finish_reply c attempt t b b' (responds r) = refl
finish_reply c attempt t b b' bubbles = refl
finish_reply c attempt t b b' (raises f) = refl

module _ {R : Type 0} (c : RetryConfig) (handler : ℕ → Attempt R) (others : ℕ → Breaker → Breaker)
    (now : ℕ → ℕ) where
  -- The breaker that other calls leave after some more attempts from one on.
  pub left_by_others : ℕ → ℕ → Breaker → Breaker
  left_by_others attempt zero b = others attempt b
  left_by_others attempt (suc n) b = left_by_others (attempt + 1) n (others attempt b)

  -- The outcome of a loop that starts at an attempt: it retried every attempt before the last, did
  -- with the last what `finish` does, and slept between them, within the configured attempts.
  pub record FollowsLoop (attempt : ℕ) (b : Breaker) (o : Outcome R) : Type 0 where
    pub from : attempt ≤ o.calls
    pub budget : o.calls ≤ max attempt c.max_attempts
    pub sleeps : o.calls ≡ attempt + length o.waits
    pub retried : (k : ℕ) → attempt ≤ k → k < o.calls → retry_wait c k (handler k) ≢ none
    pub final : retry_wait c o.calls (handler o.calls) ≡ none
    pub reply : o.reply ≡ (finish c o.calls (now o.calls) b (handler o.calls)).reply
    pub breaker :
        o.breaker
        ≡ (finish c o.calls
            (now o.calls)
            (left_by_others attempt (length o.waits) b)
            (handler o.calls)).breaker

  retry_wait-lt :
      (attempt ms : ℕ) (a : Attempt R) → retry_wait c attempt a ≡ some ms → attempt < c.max_attempts
  unfolding retry_wait
  retry_wait-lt attempt ms (raises f) h = ground (arith, max_attempts_for-le c f)
  retry_wait-lt attempt ms _ h = cc

  FollowsLoop-finish :
      (attempt : ℕ) (b : Breaker)
      → retry_wait c attempt (handler attempt) ≡ none
      → FollowsLoop attempt b (finish c attempt (now attempt) (others attempt b) (handler attempt))
  unfolding left_by_others
  FollowsLoop-finish attempt b h =
      let (calls, waits) =
        finish_trace c attempt (now attempt) (others attempt b) (handler attempt) in
      record {
        from = omega (arith, calls);
        budget = omega (arith, calls);
        sleeps = omega (arith, calls, ap length waits);
        retried = λ k p q. absurd (omega (arith, calls));
        final = rw calls h;
        reply =
            rw calls (finish_reply c attempt (now attempt) (others attempt b) b (handler attempt));
        breaker = rw (calls, waits) refl;
      }

  FollowsLoop-after_wait :
      (attempt ms : ℕ) (b : Breaker) (r : Option (Outcome R))
      → retry_wait c attempt (handler attempt) ≡ some ms
      → Returns (FollowsLoop (attempt + 1) (others attempt b)) r
      → Returns (FollowsLoop attempt b) (after_wait ms r)
  unfolding left_by_others
  FollowsLoop-after_wait attempt ms b none h r = r
  FollowsLoop-after_wait attempt ms b (some o) h r = record {
    from = omega (arith, r.from);
    budget = omega (arith, r.budget, retry_wait-lt attempt ms (handler attempt) h);
    sleeps = omega (arith, r.sleeps);
    retried = λ k p q e. elim (ℕ_discrete k attempt) [
      | yes same ↦ cc (h, e, ap (λ j. retry_wait c j (handler j)) same)
      | no other ↦ r.retried k (omega arith) q e
    ];
    final = r.final;
    reply = r.reply ∙ finish_reply c o.calls (now o.calls) (others attempt b) b (handler o.calls);
    breaker = r.breaker;
  }

  attempt_loop-FollowsLoop :
      (fuel attempt : ℕ) (b : Breaker)
      → c.max_attempts < fuel + attempt
      → 0 < fuel
      → Returns (FollowsLoop attempt b) (attempt_loop c handler others now fuel attempt b)
  unfolding attempt_loop
  attempt_loop-FollowsLoop zero attempt b m p = absurd (omega arith)
  attempt_loop-FollowsLoop (suc fuel) attempt b m p =
      elim (Option-cases (retry_wait c attempt (handler attempt))) [
        | inl e ↦ rw (e, attempt_loop) (FollowsLoop-finish attempt b e)
        | inr (ms, e) ↦
            rw (e, attempt_loop)
              (FollowsLoop-after_wait attempt ms b _ e (
                attempt_loop-FollowsLoop fuel (attempt + 1) (others attempt b) (omega arith)
                  (omega (arith, retry_wait-lt attempt ms (handler attempt) e))))
      ]

  -- What a model call does, by the answer of the circuit: it fails fast and leaves the breaker, or it
  -- follows the retry loop from the first attempt.
  abbrev pub FollowsCall : Bool × Breaker → Outcome R → Type 0
  FollowsCall (true, b) o =
      (o.reply ≡ circuit_fallback) × (o.breaker ≡ b) × (o.calls ≡ 0) × (o.waits ≡ [])
  FollowsCall (false, b) o = FollowsLoop 1 b o

  after_check-FollowsCall :
      (r : Bool × Breaker) → Returns (FollowsCall r) (after_check c handler others now r)
  after_check-FollowsCall (true, b) = (refl, refl, refl, refl)
  after_check-FollowsCall (false, b) =
      attempt_loop-FollowsLoop (suc c.max_attempts) 1 b (omega arith) (omega arith)

  -- Every wrapped call returns: the fuel never runs out, whatever the handler does.
  pub wrap_model_call_total :
      (b : Breaker)
      → Returns (FollowsCall (check_circuit (now 0) b)) (wrap_model_call c handler others now b)
  unfolding wrap_model_call
  wrap_model_call_total b = after_check-FollowsCall (check_circuit (now 0) b)

  -- When an open circuit lets a call through as the probe, others only check the circuit meanwhile, and
  -- the call's error is not retriable, the probe stays out: every later call fails fast, however much
  -- time has passed, until another call that was let through before ends.
  pub probe_lost :
      (b : Breaker) (f : Failure) (during times : List ℕ)
      → b.state ≡ open_circuit
      → b.open_until ≤ now 0
      → handler 1 ≡ raises f
      → others 1 ≡ (λ x. (checks during x).1)
      → (classify f).0 ≡ false
      → Returns
          (λ o. (o.calls ≡ 1) × ((checks times o.breaker).0 ≡ fast_all times))
          (wrap_model_call c handler others now b)
  unfolding wrap_model_call check_circuit attempt_loop
  probe_lost b f during times opened over raised meanwhile final = ground (
    arith,
    probe_exclusive (record b { state = half_open; probe_in_flight = true }) during refl refl,
    probe_exclusive (record b { state = half_open; probe_in_flight = true }) times refl refl,
  )
