-- ===== src/Job/Execute/Reports.antt =====
-- What a job reports, and when.
use ironflow_go.Prelude.{
  ℕ, ◌≡◌, refl, ap, ◌∙◌, ◌⊎◌, inl, inr, Option, none, some, Option-cases, List, All, Text, false,
  lookup,
}
use ironflow_go.Errors.{Err, YieldInfo, is_yield_signal, new_error}
use ironflow_go.Exec.{StepResult, Frame}
use ironflow_go.Job.Encode.{PushError, Encoder, encode_failure, code_serialization_error}
use ironflow_go.Job.Encode.Kept.{Encodes, AllEncode, All-drop, kept_encode, encode_failure-cases}
use ironflow_go.Job.Assignment.{JobAssignment}
use ironflow_go.Job.Execute.{
  JobReport, job_completed, job_failed, job_yielded, JobExecutor, failure_report, check_encodes,
  finish, unless_cancelled, finish_with, compensated, settle_failure, settle_checked, settle,
  run_handler, job_event, job_frame, execute_function, execute,
}

-- A predicate of the report, if there is one.
abbrev pub Whenever : {V : Type 0} → (JobReport V → Type 0) → Option (JobReport V) → Type 0
Whenever P none = Unit
Whenever P (some report) = P report

-- What a report carries can be encoded.
abbrev pub ReportEncodes : {V : Type 0} → Encoder V → JobReport V → Type 0
ReportEncodes encoder (job_completed result steps offset) = AllEncode encoder result steps
ReportEncodes encoder (job_failed e steps offset) = All (Encodes encoder) steps
ReportEncodes encoder (job_yielded info steps offset) = All (Encodes encoder) steps

module _ {V : Type 0} (encoder : Encoder V) (result : Option V)
    (executed : List (StepResult V)) where
  -- What is left to settle: nothing and all encodes, an error that is no yield, or a yield and all
  -- encodes.
  pub check_encodes-cases :
      (err : Option (Err V))
      → (check_encodes encoder result executed err ≡ none)
          × (err ≡ none)
          × AllEncode encoder result executed
        ⊎ ((e : Err V) × (check_encodes encoder result executed err ≡ some e)
            × (is_yield_signal e ≡ none)
            × ((err ≡ some e)
                ⊎ ((m : Text) × (cause : PushError) × (e
                      ≡ new_error m code_serialization_error false)
                    × ((encode_failure encoder result executed).0 ≡ some cause))))
        ⊎ ((e : Err V) × (info : YieldInfo V) × (check_encodes encoder result executed err ≡ some e)
            × (err ≡ some e)
            × (is_yield_signal e ≡ some info)
            × AllEncode encoder result executed)
  unfolding check_encodes new_error is_yield_signal
  check_encodes-cases none = elim (encode_failure-cases encoder result executed) [
    | inl (fine, encodes) ↦ rw (fine, check_encodes) (inl (refl, refl, encodes))
    | inr (e, failed, code) ↦
        rw (failed, code, check_encodes) (inr (inl (_, refl, refl, inr (e.message, _, refl, refl))))
  ]
  check_encodes-cases (some err) = elim (Option-cases (is_yield_signal err)) [
    | inl no_yield ↦ rw (no_yield, check_encodes) (inr (inl (err, refl, no_yield, inl refl)))
    | inr (info, yields) ↦ elim (encode_failure-cases encoder result executed) [
      | inl (fine, encodes) ↦
          rw (yields, fine, check_encodes) (inr (inr (err, info, refl, refl, yields, encodes)))
      | inr (e, failed, code) ↦
          rw (yields, failed, code, check_encodes)
            (inr (inl (_, refl, refl, inr (e.message, _, refl, refl))))
    ]
  ]

module _ {V W : Type 0} (e : JobExecutor V W) where
  unless_cancelled-stopped :
      (f : Frame V W) (answer : Option (JobReport V) × Frame V W) (err : Err V)
      → e.cancellation_err f.world ≡ some err
      → unless_cancelled e f answer ≡ (none, f)
  unfolding unless_cancelled
  unless_cancelled-stopped f answer err cancelled = rw (cancelled, unless_cancelled) refl

  pub unless_cancelled-runs :
      (f : Frame V W) (answer : Option (JobReport V) × Frame V W)
      → e.cancellation_err f.world ≡ none
      → unless_cancelled e f answer ≡ answer
  unfolding unless_cancelled
  unless_cancelled-runs f answer running = rw (running, unless_cancelled) refl

  pub unless_cancelled-exec :
      (f : Frame V W) (answer : Option (JobReport V) × Frame V W)
      → answer.1.exec ≡ f.exec
      → (unless_cancelled e f answer).1.exec ≡ f.exec
  unless_cancelled-exec f answer same = elim (Option-cases (e.cancellation_err f.world)) [
    | inl running ↦ ap (λ a. a.1.exec) (unless_cancelled-runs f answer running) ∙ same
    | inr (err, cancelled) ↦ ap (λ a. a.1.exec) (unless_cancelled-stopped f answer err cancelled)
  ]

  module _ (P : JobReport V → Type 0) where
    Whenever-unless_cancelled :
        (f : Frame V W) (answer : Option (JobReport V) × Frame V W)
        → Whenever P answer.0
        → Whenever P (unless_cancelled e f answer).0
    unfolding unless_cancelled
    Whenever-unless_cancelled f answer h = elim (Option-cases (e.cancellation_err f.world)) [
      | inl running ↦ rw (running, unless_cancelled) h
      | inr (err, cancelled) ↦ rw (cancelled, unless_cancelled) tt
    ]

    Whenever-finish_with :
        (report : List (StepResult V) → ℕ → JobReport V) (f : Frame V W)
        → ((w : W)
            → P (report (finish e f.exec.executed_steps w).0 (finish e f.exec.executed_steps w).1))
        → Whenever P (finish_with e report f).0
    unfolding finish_with
    Whenever-finish_with report f h =
        Whenever-unless_cancelled (record f { world = e.wait_for_ticker f.world }) (_, _)
          (h (e.wait_for_ticker f.world))

  finish-Encodes :
      (executed : List (StepResult V)) (w : W)
      → All (Encodes e.encoder) executed
      → All (Encodes e.encoder) (finish e executed w).0
  unfolding finish
  finish-Encodes executed w h = elim (Option-cases e.checkpointer) [
    | inl streaming ↦ rw (streaming, finish) tt
    | inr (at, pulled) ↦ rw (pulled, finish) (All-drop e.encoder (at w).cursor executed h)
  ]

  settle_failure-Encodes :
      (job : JobAssignment V) (err : Err V) (f : Frame V W)
      → Whenever (ReportEncodes e.encoder) (settle_failure e job err f).0
  unfolding settle_failure failure_report
  settle_failure-Encodes job err f =
      Whenever-unless_cancelled (ReportEncodes e.encoder) (compensated e job err f) (_, _)
        (Whenever-finish_with (ReportEncodes e.encoder) _ _ (λ w. kept_encode e.encoder _))

  settle-Encodes :
      (job : JobAssignment V) (result : Option V) (err : Option (Err V)) (f : Frame V W)
      → Whenever (ReportEncodes e.encoder) (settle e job result err f).0
  unfolding settle settle_checked
  settle-Encodes job result err f =
      Whenever-unless_cancelled (ReportEncodes e.encoder) f (_, _)
        (elim (check_encodes-cases e.encoder result f.exec.executed_steps err) [
          | inl (settled, _, (good, steps)) ↦ rw (settled) (
              Whenever-finish_with (ReportEncodes e.encoder) _ f
                (λ w. (good, finish-Encodes f.exec.executed_steps w steps)))
          | inr (inl (err', settled, no_yield, _)) ↦
              rw (settled, no_yield, settle_checked) (settle_failure-Encodes job err' f)
          | inr (inr (err', info, settled, _, yields, (good, steps))) ↦
              rw (settled, yields, settle_checked)
                (Whenever-finish_with (ReportEncodes e.encoder) _ f
                  (λ w. finish-Encodes f.exec.executed_steps w steps))
        ])

  -- Whatever a job reports can be encoded: the steps of each report, and the result of a completed
  -- job.
  pub reports_encode :
      (job : JobAssignment V) (w : W) → Whenever (ReportEncodes e.encoder) (execute e job w).0
  unfolding execute execute_function
  reports_encode job w = elim (Option-cases (lookup job.function_id e.functions)) [
    | inl missing ↦ rw (missing, execute, Whenever) tt
    | inr (fn, found) ↦
        let (reply, f) = run_handler e fn (job_event e job) (job_frame e fn job w) in
        rw (found, execute, Whenever) (settle-Encodes job reply.0 reply.1 f)
  ]

  pub finish_with-exec :
      (report : List (StepResult V) → ℕ → JobReport V) (f : Frame V W)
      → (finish_with e report f).1.exec ≡ f.exec
  unfolding finish_with
  finish_with-exec report f =
      unless_cancelled-exec (record f { world = e.wait_for_ticker f.world }) (_, _) refl

  pub settle_failure-exec :
      (job : JobAssignment V) (err : Err V) (f : Frame V W)
      → (settle_failure e job err f).1.exec ≡ (compensated e job err f).exec
  unfolding settle_failure
  settle_failure-exec job err f =
      unless_cancelled-exec (compensated e job err f) _ (finish_with-exec _ _)
