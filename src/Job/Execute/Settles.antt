-- ===== src/Job/Execute/Settles.antt =====
-- How the result of a job's handler decides what is reported, and whether compensations run.
use ironflow_go.Prelude.{
  ◌≡◌, refl, ap, ◌∙◌, ◌⊎◌, inl, inr, Option, none, some, List, true, false, Bool-cases,
}
use ironflow_go.Errors.{Err, is_yield_signal, error_text}
use ironflow_go.Errors.Retry.{is_retryable, is_terminal_failure}
use ironflow_go.Exec.{StepResult, Frame}
use ironflow_go.Exec.Compensate.{has_compensations}
use ironflow_go.Job.Encode.{PushError, Encoder, encode_failure, code_serialization_error}
use ironflow_go.Job.Encode.Kept.{AllEncode}
use ironflow_go.Job.Assignment.{JobAssignment}
use ironflow_go.Job.Execute.{
  JobReport, job_completed, job_failed, job_yielded, JobFunction, JobExecutor, check_encodes,
  compensated, settle_checked, settle, run_handler, job_event, job_frame, execute_function,
}
use ironflow_go.Job.Execute.Reports.{
  check_encodes-cases, unless_cancelled-exec, finish_with-exec, settle_failure-exec,
}

-- A failure reported for an error: the error's own, or that of a step that does not encode.
abbrev pub ReportsError : {V : Type 0} → Err V → PushError → Type 0
ReportsError err p =
    (p.retryable ≡ is_retryable err) × (p.message ≡ error_text err)
    ⊎ (p.code ≡ code_serialization_error) × (p.retryable ≡ false)

-- What the report says of the handler's result, its error, and the steps it executed.
abbrev pub Settles :
    {V : Type 0}
    → Encoder V
    → Option V
    → Option (Err V)
    → List (StepResult V)
    → JobReport V
    → Type 0
Settles encoder result err executed (job_completed output steps offset) =
    (err ≡ none) × (output ≡ result) × AllEncode encoder result executed
Settles {V} encoder result err executed (job_yielded info steps offset) =
    (e : Err V) × (err ≡ some e)
    × (is_yield_signal e ≡ some info)
    × AllEncode encoder result executed
Settles {V} encoder result err executed (job_failed p steps offset) =
    ((e : Err V) × (err ≡ some e) × (is_yield_signal e ≡ none) × ReportsError e p)
    ⊎ ((cause : PushError) × ((encode_failure encoder result executed).0 ≡ some cause)
        × (p.code ≡ code_serialization_error)
        × (p.retryable ≡ false))

module _ {V W : Type 0} (e : JobExecutor V W) where
  compensated-not_terminal :
      (job : JobAssignment V) (err : Err V) (f : Frame V W)
      → is_terminal_failure (is_retryable err) job.attempt job.max_attempts job.on_exhausted ≡ false
      → compensated e job err f ≡ f
  unfolding compensated
  compensated-not_terminal job err f not_terminal = elim (Bool-cases (has_compensations f.exec)) [
    | inl some_are ↦ rw (some_are, not_terminal, compensated) refl
    | inr none_are ↦ rw (none_are, compensated) refl
  ]

  -- After the handler the execution context changes, that is, compensations run, only where the
  -- result settles to an error that is no yield and ends the run: one that is not retryable, or whose
  -- attempts are used up under the policy "fail".
  pub compensates_if_terminal :
      (fn : JobFunction V W) (job : JobAssignment V) (w : W)
      → (let (reply, f) = run_handler e fn (job_event e job) (job_frame e fn job w) in
          ((execute_function e fn job w).1.exec ≡ f.exec)
          ⊎ ((err : Err V) × (check_encodes e.encoder reply.0 f.exec.executed_steps reply.1
                ≡ some err)
              × (is_yield_signal err ≡ none)
              × (is_terminal_failure
                    (is_retryable err)
                    job.attempt
                    job.max_attempts
                    job.on_exhausted
                  ≡ true)))
  unfolding execute_function settle settle_checked
  compensates_if_terminal fn job w =
      let (reply, f) = run_handler e fn (job_event e job) (job_frame e fn job w) in
      elim (check_encodes-cases e.encoder reply.0 f.exec.executed_steps reply.1) [
        | inl (settled, _, _) ↦
            inl
              (unless_cancelled-exec e f _ (rw (settled, settle_checked) (finish_with-exec e _ f)))
        | inr (inl (err, settled, no_yield, _)) ↦
            elim (Bool-cases (
              is_terminal_failure (is_retryable err) job.attempt job.max_attempts
                job.on_exhausted)) [
                  | inl terminal ↦ inr (err, settled, no_yield, terminal)
                  | inr not_terminal ↦ inl (
                      unless_cancelled-exec e f _ (
                        rw (settled, no_yield, settle_checked)
                          (settle_failure-exec e job err f
                            ∙ ap (λ g. g.exec) (compensated-not_terminal job err f not_terminal))))
                ]
        | inr (inr (err, info, settled, _, yields, _)) ↦ inl (
            unless_cancelled-exec e f _
              (rw (settled, yields, settle_checked) (finish_with-exec e _ f)))
      ]
