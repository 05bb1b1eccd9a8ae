-- ===== src/Errors/Retry/Hints.antt =====
-- What wrapping an error in a step error keeps, and the rounding of the hint.
use ironflow_go.Prelude.{
  ℕ, ◌≤◌, ◌<◌, ◌≡◌, refl, some, Text, codes, arith, Bool, true, false, ◌↔◌, ◌⊎◌, inl, inr,
  text_eq→eq, text_eq_refl,
}
use ironflow_go.Errors.{Err, error_text, new_step_error, wrapped}
use ironflow_go.Errors.Retry.{is_retryable, retry_after_ms, is_terminal_failure}

module _ {V : Type 0} where
  -- The step error that `Run` makes of a failure is retryable exactly when the failure is, it sends
  -- the failure's own backoff hint, and so does any text wrapped around it by `%w`.
  pub retry-step_error :
      (err : Err V) (id name text : Text)
      → let wrapped_err =
          wrapped text (new_step_error (error_text err) id name (is_retryable err) (some err)) in
        (is_retryable wrapped_err ≡ is_retryable err)
        × (retry_after_ms wrapped_err (is_retryable wrapped_err)
            ≡ retry_after_ms err (is_retryable err))
  unfolding new_step_error is_retryable retry_after_ms
  retry-step_error err id name text = (refl, refl)

-- An attempt that failed ends the run exactly when its error is not retryable, or the run's policy
-- is "fail", its budget is known, and this was its last attempt.
pub is_terminal_failure_iff :
    (retryable : Bool) (attempt max_attempts : ℕ) (on_exhausted : Text)
    → (is_terminal_failure retryable attempt max_attempts on_exhausted ≡ true)
      ↔ (retryable ≡ false)
        ⊎ ((on_exhausted ≡ codes "fail") × (0 < max_attempts) × (max_attempts ≤ attempt))
unfolding is_terminal_failure
is_terminal_failure_iff false attempt max_attempts on_exhausted = (λ h. inl refl, λ h. refl)
is_terminal_failure_iff true attempt max_attempts on_exhausted = (
  λ h. inr (text_eq→eq on_exhausted (codes "fail") (ground arith), ground arith, ground arith),
  λ h. elim h [
    | inl no_retry ↦ cc
    | inr (e, known, last) ↦ rw e (ground (arith, text_eq_refl (codes "fail")))
  ],
)
