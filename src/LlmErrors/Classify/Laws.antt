-- ===== src/LlmErrors/Classify/Laws.antt =====
-- What the classification, the retry budget and the delay promise.
use deer_seek_backend.Prelude.{ℕ, ◌≤◌, ◌≡◌, true, false, none, arith}
use deer_seek_backend.LlmErrors.Classify.{
  Failure, matches_any, quota_patterns, auth_patterns, classify, RetryConfig, max_attempts_for,
  retry_delay_ms,
}

-- An error that names a quota or an authentication problem is never retried, whatever its class or
-- status.
pub retried_only_without_quota_or_auth :
    (f : Failure)
    → (classify f).0 ≡ true
    → (matches_any f.lowered quota_patterns ≡ false)
      × (matches_any f.error_code quota_patterns ≡ false)
      × (matches_any f.lowered auth_patterns ≡ false)
unfolding classify
retried_only_without_quota_or_auth f h = ground arith

pub max_attempts_for-le : (c : RetryConfig) (f : Failure) → max_attempts_for c f ≤ c.max_attempts
unfolding max_attempts_for
max_attempts_for-le c f = ground arith

pub retry_delay_ms-le :
    (c : RetryConfig) (attempt : ℕ) (f : Failure)
    → f.retry_after_ms ≡ none
    → retry_delay_ms c attempt f ≤ c.cap_delay_ms
unfolding retry_delay_ms
retry_delay_ms-le c attempt f h = ground arith
