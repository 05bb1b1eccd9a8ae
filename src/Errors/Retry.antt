-- ===== src/Errors/Retry.antt =====
-- ironflow/errors.go: whether a failure may be retried, the backoff hint that it carries, and
-- whether it ends the run.
pub mod Hints
use ironflow_go.Prelude.{
  ℕ, ◌+◌, ◌/◌, ◌%◌, some, none, Text, codes, ltb, leb, ◌==◌, if◌then◌else◌, Bool, true, false, not,
  ◌&&◌, is_pos, pos_part, text_eq,
}
use ironflow_go.Errors.{
  Err, foreign, wrapped, ironflow, ironflow_from, step_error, step_timeout_error,
  non_retryable_error, invoke_error, yield_signal, as_ironflow, has_invoke_error,
}

abbrev pub millisecond : ℕ
millisecond = 1000000

-- A duration in milliseconds, rounded up.
abbrev pub ceil_ms : ℕ → ℕ
ceil_ms d = if d % millisecond == 0 then d / millisecond else d / millisecond + 1

module _ {V : Type 0} where
  unfoldable pub is_retryable : Err V → Bool
  unfolding as_ironflow has_invoke_error
  is_retryable err = elim (as_ironflow err) [
    | some meta ↦ meta.retryable
    | none ↦ if has_invoke_error err then false else true
  ]

  -- The walk of `retryAfterMs` down the chain.
  unfoldable pub retry_hint : Err V → ℕ
  retry_hint (ironflow meta) =
      if is_pos meta.retry_after then ceil_ms (pos_part meta.retry_after) else 0
  retry_hint (ironflow_from meta cause) =
      let rest = retry_hint cause in
      if is_pos meta.retry_after then ceil_ms (pos_part meta.retry_after) else rest
  retry_hint (wrapped message cause) = retry_hint cause
  retry_hint (step_error id name inner) = retry_hint inner
  retry_hint (step_timeout_error name timeout inner) = retry_hint inner
  retry_hint (non_retryable_error inner) = retry_hint inner
  retry_hint _ = 0

  unfoldable pub retry_after_ms : Err V → Bool → ℕ
  unfolding retry_hint
  retry_after_ms err retryable = if not retryable then 0 else retry_hint err

-- `attempt >= maxAttempts` with `maxAttempts > 0`; attempts are counted from 1.
unfoldable pub is_terminal_failure : Bool → ℕ → ℕ → Text → Bool
is_terminal_failure retryable attempt max_attempts on_exhausted =
    if not retryable
    then true
    else text_eq on_exhausted (codes "fail") && ltb 0 max_attempts && leb max_attempts attempt
