-- ===== src/LlmErrors/Classify.antt =====
-- `_classify_error`, `_max_attempts_for` and `_build_retry_delay_ms` of
-- `LLMErrorHandlingMiddleware`. A provider error is what these read of the exception object: its
-- class name, `_extract_error_detail(exc).lower()`, `str(_extract_error_code(exc)).lower()`,
-- `_extract_status_code(exc)` and `_extract_retry_after_ms(exc)`.
pub mod Laws
use text.Mathlib.Text.{find?}
use deer_seek_backend.Prelude.{
  ℕ, ◌-◌, ◌*◌, ◌^◌, String, Bool, true, false, ◌||◌, Option, none, some, List, [], ◌∷◌, min, max,
  any, contains, ◌==◌, string_eq, nat_eq, if◌then◌else◌,
}

pub record Failure : Type 0 where
  pub class_name : String
  pub lowered : String
  pub error_code : String
  pub status_code : Option ℕ
  pub retry_after_ms : Option ℕ

pub data Reason : Type 0 where
  quota auth transient busy generic : Reason

abbrev retriable_status_codes : List ℕ
retriable_status_codes = 408 ∷ 409 ∷ 425 ∷ 429 ∷ 500 ∷ 502 ∷ 503 ∷ 504 ∷ []

abbrev busy_patterns : List String
busy_patterns =
    "server busy" ∷ "temporarily unavailable" ∷ "try again later" ∷ "please retry"
    ∷ "please try again" ∷ "overloaded" ∷ "high demand" ∷ "rate limit" ∷ "负载较高" ∷ "服务繁忙" ∷ "稍后重试"
    ∷ "请稍后重试" ∷ []

abbrev pub quota_patterns : List String
quota_patterns =
    "insufficient_quota" ∷ "quota" ∷ "billing" ∷ "credit" ∷ "payment" ∷ "余额不足" ∷ "超出限额" ∷ "额度不足"
    ∷ "欠费" ∷ []

abbrev pub auth_patterns : List String
auth_patterns =
    "authentication" ∷ "unauthorized" ∷ "invalid api key" ∷ "invalid_api_key" ∷ "permission"
    ∷ "forbidden" ∷ "access denied" ∷ "无权" ∷ "未授权" ∷ []

abbrev transient_names : List String
transient_names =
    "APITimeoutError" ∷ "APIConnectionError" ∷ "InternalServerError" ∷ "ReadError"
    ∷ "RemoteProtocolError" ∷ "StreamChunkTimeoutError" ∷ []

-- `pattern in detail`
occurs_in : String → String → Bool
occurs_in detail pattern = elim (find? detail pattern) [ none ↦ false | some _ ↦ true ]

unfoldable pub matches_any : String → List String → Bool
unfolding occurs_in
matches_any detail patterns = any (occurs_in detail) patterns

is_retriable_status : Option ℕ → Bool
is_retriable_status none = false
is_retriable_status (some code) = contains code retriable_status_codes

-- Whether the error may be retried, and why.
unfoldable pub classify : Failure → Bool × Reason
unfolding is_retriable_status
classify f =
    if matches_any f.lowered quota_patterns || matches_any f.error_code quota_patterns
    then (false, quota)
    else if matches_any f.lowered auth_patterns
    then (false, auth)
    else if contains f.class_name transient_names
    then (true, transient)
    else if is_retriable_status f.status_code
    then (true, transient)
    else if matches_any f.lowered busy_patterns
    then (true, busy)
    else (false, generic)

-- The class attributes `retry_max_attempts`, `retry_base_delay_ms` and `retry_cap_delay_ms`.
pub record RetryConfig : Type 0 where
  pub max_attempts : ℕ
  pub base_delay_ms : ℕ
  pub cap_delay_ms : ℕ

abbrev pub default_config : RetryConfig
default_config = record { max_attempts = 3; base_delay_ms = 1000; cap_delay_ms = 8000 }

-- `_RETRY_BUDGET_OVERRIDES.get(name)`
retry_budget_override : String → Option ℕ
retry_budget_override name = if name == "StreamChunkTimeoutError" then some 2 else none

unfoldable pub max_attempts_for : RetryConfig → Failure → ℕ
unfolding retry_budget_override
max_attempts_for c f = elim (retry_budget_override f.class_name) [
  | none ↦ c.max_attempts
  | some budget ↦ min budget c.max_attempts
]

unfoldable pub retry_delay_ms : RetryConfig → ℕ → Failure → ℕ
retry_delay_ms c attempt f = elim f.retry_after_ms [
  | some ms ↦ ms
  | none ↦ min (c.base_delay_ms * 2 ^ max 0 (attempt - 1)) c.cap_delay_ms
]
