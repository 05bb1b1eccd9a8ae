-- ===== src/FunctionConfig/Metadata.antt =====
-- The retry, circuit breaker, throttle and debounce objects of a function's registration:
-- `retryMetadata` and `GetFunctionMetadata` of ironflow/function.go. A field that is absent is none.
use ironflow_go.Prelude.{
  ℕ, suc, ap, ◌+◌, ◌-◌, ◌*◌, ◌==◌, ◌/◌, ◌≤◌, ◌<◌, ◌≡◌, Option, none, some, Text, Bool,
  if◌then◌else◌, ℤ, pos, negsuc, is_pos, arith,
}
use ironflow_go.FunctionConfig.{
  RetryConfig, CircuitBreakerConfig, ThrottleConfig, DebounceConfig, is_blank,
}

abbrev pub one_ms : ℕ
one_ms = 1000000

abbrev pub negate : ℕ → ℤ
negate n = if n == 0 then pos 0 else negsuc (n - 1)

-- `Milliseconds()`, cut off towards zero.
abbrev pub milliseconds : ℤ → ℤ
milliseconds (pos n) = pos (n / one_ms)
milliseconds (negsuc n) = negate ((n + 1) / one_ms)

pub record RetryMetadata (F : Type 0) : Type 0 where
  pub max_attempts : Option ℤ
  pub initial_delay_ms : Option ℤ
  pub backoff_factor : Option F
  pub max_delay_ms : Option ℤ
  pub on_exhausted : Option Text

abbrev pub if_positive : {A : Type 0} → ℤ → A → Option A
if_positive d a = if is_pos d then some a else none

-- `retryMetadata` of a retry config that is not nil.
unfoldable pub retry_metadata :
    {F : Type 0} → (is_positive : F → Bool) → RetryConfig F → RetryMetadata F
retry_metadata is_positive r = record {
  max_attempts = if_positive r.max_attempts r.max_attempts;
  initial_delay_ms = if_positive r.initial_delay (milliseconds r.initial_delay);
  backoff_factor = if is_positive r.backoff_factor then some r.backoff_factor else none;
  max_delay_ms = if_positive r.max_delay (milliseconds r.max_delay);
  on_exhausted = if is_blank r.on_exhausted then none else some r.on_exhausted;
}

pub record BreakerMetadata : Type 0 where
  pub failure_threshold : ℤ
  pub open_duration_ms : ℤ
  pub max_open_duration_ms : ℤ

abbrev pub breaker_metadata : CircuitBreakerConfig → BreakerMetadata
breaker_metadata b = record {
  failure_threshold = b.failure_threshold;
  open_duration_ms = milliseconds b.open_duration;
  max_open_duration_ms = milliseconds b.max_open_duration;
}

pub record ThrottleMetadata : Type 0 where
  pub limit : ℤ
  pub period_ms : ℤ
  pub key : Text

abbrev pub throttle_metadata : ThrottleConfig → ThrottleMetadata
throttle_metadata t = record { limit = t.limit; period_ms = milliseconds t.period; key = t.key }

pub record DebounceMetadata : Type 0 where
  pub period_ms : ℤ
  pub key : Text
  pub max_wait_ms : Option ℤ

abbrev pub debounce_metadata : DebounceConfig → DebounceMetadata
debounce_metadata d = record {
  period_ms = milliseconds d.period;
  key = d.key;
  max_wait_ms = if_positive d.max_wait (milliseconds d.max_wait);
}

-- A positive delay is sent as the whole milliseconds in it, which may be none.
pub initial_delay_ms-rounds_down :
    {F : Type 0} (is_positive : F → Bool) (r : RetryConfig F) (n : ℕ)
    → r.initial_delay ≡ pos (suc n)
    → (ms : ℕ) × ((retry_metadata is_positive r).initial_delay_ms ≡ some (pos ms))
      × (ms * one_ms ≤ suc n)
      × (suc n < (ms + 1) * one_ms)
unfolding retry_metadata
initial_delay_ms-rounds_down is_positive r n delay =
    (suc n / one_ms, ap (λ d. if_positive d (milliseconds d)) delay, omega arith, omega arith)
