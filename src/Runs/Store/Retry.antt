-- ===== src/Runs/Store/Retry.antt =====
-- `PersistenceRetryPolicy` and `_call_store_with_retry` of
-- packages/harness/deerflow/runtime/runs/manager.py, with delays in milliseconds.
use deer_seek_backend.Prelude.{
  subst, Bool-cases, ℕ, zero, suc, ◌+◌, ◌-◌, ◌*◌, ◌≤◌, ◌<◌, ◌≡◌, refl, Bool, true, false, List, [],
  ◌∷◌, min, ◌==◌, nat_eq, arith, if◌then◌else◌, length, All, ◌⊎◌, inl, inr,
}
use deer_seek_backend.Runs.Store.{Attempt, done, failed, Call}

pub record RetryPolicy : Type 0 where
  pub max_attempts : ℕ
  pub initial_delay : ℕ
  pub max_delay : ℕ
  pub backoff_factor : ℕ

abbrev pub default_policy : RetryPolicy
default_policy = record {
  max_attempts = 5;
  initial_delay = 50;
  max_delay = 1000;
  backoff_factor = 2;
}

-- How the whole call ended, in which state of the store, after how many attempts, and the delays
-- between them (a delay of 0 does not sleep).
pub record Retried (A S : Type 0) : Type 0 where
  pub result : Attempt A
  pub store : S
  pub attempts : ℕ
  pub delays : List ℕ

-- `min(policy.max_delay, delay * policy.backoff_factor if delay else policy.initial_delay)`
unfoldable pub next_delay : RetryPolicy → ℕ → ℕ
next_delay p delay =
    min p.max_delay (if delay == 0 then p.initial_delay else delay * p.backoff_factor)

module _ {A S : Type 0} (p : RetryPolicy) (operation : Call S A) where
  abbrev once : Attempt A × S → Retried A S
  once (r, s) = record { result = r; store = s; attempts = 1; delays = [] }

  abbrev once_more : ℕ → Retried A S → Retried A S
  once_more delay r = record r { attempts = suc r.attempts; delays = delay ∷ r.delays }

  abbrev is_retryable : Attempt A → Bool
  is_retryable (done a) = false
  is_retryable (failed retryable) = retryable

  -- The loop, with the attempts that are left after this one, and the delay before the next.
  pub retry_loop : ℕ → ℕ → S → Retried A S
  unfolding next_delay
  retry_loop zero delay s = once (operation s)
  retry_loop (suc left) delay s =
      let again = once_more delay (retry_loop left (next_delay p delay) (operation s).1) in
      if is_retryable (operation s).0 then again else once (operation s)

  unfoldable pub retry : S → Retried A S
  unfolding retry_loop
  retry s = retry_loop (p.max_attempts - 1) p.initial_delay s

  -- The states that repeated attempts lead to.
  pub state_after : ℕ → S → S
  state_after zero s = s
  state_after (suc n) s = state_after n (operation s).1

  -- `r` made its attempts one after the other from `s`: all but the last raised a retryable error,
  -- the last gave the result, and it was the last allowed or is not retryable.
  pub record IsBounded (allowed : ℕ) (s : S) (r : Retried A S) : Type 0 where
    pub some_attempt : 0 < r.attempts
    pub within : r.attempts ≤ allowed
    pub counted : length r.delays + 1 ≡ r.attempts
    pub retried : (k : ℕ) → k + 1 < r.attempts → is_retryable (operation (state_after k s)).0 ≡ true
    pub last : operation (state_after (r.attempts - 1) s) ≡ (r.result, r.store)
    pub stopped : (r.attempts ≡ allowed) ⊎ (is_retryable r.result ≡ false)

  IsBounded-once :
      (left : ℕ) (s : S)
      → ((suc left ≡ 1) ⊎ (is_retryable (operation s).0 ≡ false))
      → IsBounded (suc left) s (once (operation s))
  unfolding state_after
  IsBounded-once left s stop = record {
    some_attempt = omega arith;
    within = omega arith;
    counted = refl;
    retried = λ k h. absurd (omega arith);
    last = refl;
    stopped = ground arith;
  }

  IsBounded-once_more :
      (left delay : ℕ) (s : S) (r : Retried A S)
      → is_retryable (operation s).0 ≡ true
      → IsBounded (suc left) (operation s).1 r
      → IsBounded (suc (suc left)) s (once_more delay r)
  unfolding state_after
  IsBounded-once_more left delay s r again b = record {
    some_attempt = omega arith;
    within = omega (arith, b.within);
    counted = omega (arith, b.counted);
    retried = all_retried;
    last = subst (λ n. operation (state_after n s) ≡ (r.result, r.store)) step b.last;
    stopped = ground (arith, b.stopped);
  }
    where
      step : suc (r.attempts - 1) ≡ suc r.attempts - 1
      step = omega (arith, b.some_attempt)

      all_retried :
          (k : ℕ) → k + 1 < suc r.attempts → is_retryable (operation (state_after k s)).0 ≡ true
      all_retried zero h = again
      all_retried (suc k) h = b.retried k (omega arith)

  retry_loop-IsBounded : (left delay : ℕ) (s : S) → IsBounded (suc left) s (retry_loop left delay s)
  unfolding retry_loop
  retry_loop-IsBounded zero delay s = IsBounded-once 0 s (inl refl)
  retry_loop-IsBounded (suc left) delay s = elim (Bool-cases (is_retryable (operation s).0)) [
    | inl again ↦ rw again (
        IsBounded-once_more left delay s _ again
          (retry_loop-IsBounded left (next_delay p delay) (operation s).1))
    | inr stop ↦ rw stop (IsBounded-once (suc left) s (inr stop))
  ]

  -- With at least one attempt allowed, a store call makes at most that many, repeats exactly the
  -- attempts that raise a retryable error, and ends as its last attempt does: by a result, by an error
  -- that is not retryable, or with the attempts used up.
  pub retry-IsBounded : (s : S) → 0 < p.max_attempts → IsBounded p.max_attempts s (retry s)
  unfolding retry
  retry-IsBounded s h =
      let e : suc (p.max_attempts - 1) ≡ p.max_attempts = omega arith in
      subst (λ n. IsBounded n s (retry_loop (p.max_attempts - 1) p.initial_delay s)) e
        (retry_loop-IsBounded (p.max_attempts - 1) p.initial_delay s)

-- The delays stay within the largest one, where the first does.
module _ {A S : Type 0} (p : RetryPolicy) (operation : Call S A) where
  delays_bounded :
      (left delay : ℕ) (s : S)
      → delay ≤ p.max_delay
      → All (λ d. d ≤ p.max_delay) (retry_loop p operation left delay s).delays
  unfolding retry_loop next_delay
  delays_bounded zero delay s h = tt
  delays_bounded (suc left) delay s h =
      ground (arith, delays_bounded left (next_delay p delay) (operation s).1)

  pub retry_delays :
      (s : S)
      → p.initial_delay ≤ p.max_delay
      → All (λ d. d ≤ p.max_delay) (retry p operation s).delays
  unfolding retry
  retry_delays s h = delays_bounded (p.max_attempts - 1) p.initial_delay s h

-- A call that returns is made once.
module _ {A S : Type 0} (p : RetryPolicy) (operation : Call S A) where
  loop_done :
      (left delay : ℕ) (s s' : S) (a : A)
      → operation s ≡ (done a, s')
      → retry_loop p operation left delay s
        ≡ record { result = done a; store = s'; attempts = 1; delays = [] }
  unfolding retry_loop
  loop_done zero delay s s' a e = rw e refl
  loop_done (suc left) delay s s' a e = rw e refl

  pub retry_done :
      (s s' : S) (a : A)
      → operation s ≡ (done a, s')
      → retry p operation s ≡ record { result = done a; store = s'; attempts = 1; delays = [] }
  unfolding retry
  retry_done s s' a e = loop_done (p.max_attempts - 1) p.initial_delay s s' a e
