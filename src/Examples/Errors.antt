-- ===== src/Examples/Errors.antt =====
-- Failures as a run reports them.
use ironflow_go.Prelude.{ℕ, ◌*◌, ◌≡◌, refl, codes, true, pos, text_eq, lookup}
use ironflow_go.StepId.{itoa}
use ironflow_go.Errors.{Err, foreign, new_retry_after_error}
use ironflow_go.Errors.Retry.{is_retryable, retry_after_ms}
use ironflow_go.Errors.Yields.{format_duration, hour}
use ironflow_go.Errors.Rest.{rest_error_code}

abbrev rate_limited : Err ℕ
rate_limited = new_retry_after_error (codes "slow down") (pos 1500000)

hint_is_rounded_up : retry_after_ms rate_limited true ≡ 2
unfolding retry_after_ms new_retry_after_error
hint_is_rounded_up = refl

abbrev boom : Err ℕ
boom = foreign (codes "boom")

plain_errors_retry : is_retryable boom ≡ true
unfolding is_retryable
plain_errors_retry = refl

seven_days_text : format_duration (7 * (24 * hour)) ≡ codes "168h"
unfolding format_duration itoa
seven_days_text = refl

-- A deadline of half a second is sent as none at all.
half_a_second_text : format_duration 500000000 ≡ codes "0s"
unfolding format_duration itoa
half_a_second_text = refl

legacy_code : rest_error_code (codes "NOT_FOUND") 404 ≡ codes "not_found"
unfolding rest_error_code text_eq lookup
legacy_code = refl
