-- ===== src/Job/Execute.antt =====
-- ironflow/job_executor.go: `execute`, one job from its assignment to the report of its result, for
-- the pull worker (with a checkpointer) and the streaming worker (without).
pub mod Reports
pub mod Settles
use ironflow_go.Prelude.{
  ℕ, Option, none, some, List, [], ◌∷◌, ◌++◌, Text, codes, Bool, true, false, ℤ, ◌&&◌,
  if◌then◌else◌, text_eq, lookup,
}
use ironflow_go.Errors.{
  Err, foreign, yield_signal, YieldInfo, Formats, error_text, new_error, as_ironflow,
  has_invoke_error, is_yield_signal,
}
use ironflow_go.Errors.Retry.{is_retryable, retry_after_ms, is_terminal_failure}
use ironflow_go.Exec.{StepResult, StepReport, ExecutionContext, Frame, root}
use ironflow_go.Exec.Run.{Try}
use ironflow_go.Exec.Compensate.{has_compensations, execute_compensations}
use ironflow_go.Upcaster.{UpcasterRegistry}
use ironflow_go.Job.Encode.{
  PushError, Encoder, encodable_steps, encode_failure, code_serialization_error,
}
use ironflow_go.Job.Checkpoint.{StepCheckpointer, tail}
use ironflow_go.Job.Assignment.{
  JobAssignment, Event, job_context, upcasted_data, event_of, validate_event_input,
}

-- What the server is told: one of the three reports of a `jobReporter`, with steps and their offset.
pub data JobReport (V : Type 0) : Type 0 where
  job_completed : Option V → List (StepResult V) → ℕ → JobReport V
  job_failed : PushError → List (StepResult V) → ℕ → JobReport V
  job_yielded : YieldInfo V → List (StepResult V) → ℕ → JobReport V

pub record ErrorContext : Type 0 where
  pub function_id : Text
  pub job_id : Text
  pub run_id : Text
  pub attempt : ℕ
  pub event_name : Text

-- A handler returns a result and an error, or panics with a yield signal.
pub data HandlerReply (V : Type 0) : Type 0 where
  replied : Option V → Option (Err V) → HandlerReply V
  suspended : YieldInfo V → HandlerReply V

pub record JobFunction (V W : Type 0) : Type 0 where
  pub id : Text
  pub step_timeout : ℤ
  pub validate : Option (Text → Option (Err V))
  pub handler : Event V → Frame V W → HandlerReply V × Frame V W

-- The executor, and what it calls. The checkpointer is nil for a streaming worker; for a pull worker
-- it is where its goroutine has got to when `finish` has waited for it.
pub record JobExecutor (V W : Type 0) : Type 0 where
  pub functions : List (Text × JobFunction V W)
  pub upcasters : Option UpcasterRegistry
  pub on_error : Option (Err V → ErrorContext → W → W)
  pub checkpointer : Option (W → StepCheckpointer)
  pub step_reporter : Option (List (StepReport V))
  pub cancellation_err : W → Option (Err V)
  pub wait_for_ticker : W → W
  pub encoder : Encoder V
  pub formats : Formats
  pub is_redacted : Text → Bool
  pub raw : Text → V
  pub parse_time : Text → ℕ
  pub decode_metadata : Text → Try V

-- The steps of a streaming job that were not reported one by one.
unfoldable pub compensation_steps : {V : Type 0} → List (StepResult V) → List (StepResult V)
compensation_steps [] = []
compensation_steps (s ∷ steps) =
    if text_eq s.kind (codes "compensate")
    then s ∷ compensation_steps steps
    else compensation_steps steps

unfoldable pub or_step_error : Option PushError → PushError → PushError
or_step_error none push_error = push_error
or_step_error (some step_err) push_error =
    if text_eq push_error.code [] then step_err else push_error

module _ {V : Type 0} where
  -- The code is set for a result or step that does not encode.
  unfoldable pub push_error_of : Err V → Bool → PushError
  push_error_of err retryable = record {
    message = error_text err;
    code = elim (as_ironflow err) [
      | none ↦ []
      | some meta ↦
          if text_eq meta.code code_serialization_error then code_serialization_error else []
    ];
    step_id = [];
    retryable = retryable;
    retry_after_ms = retry_after_ms err retryable;
  }

  unfoldable pub with_invoke_code : Err V → PushError → PushError
  with_invoke_code err push_error =
      if text_eq push_error.code [] && has_invoke_error err
      then record push_error { code = codes "INVOKE_FAILED" }
      else push_error

  -- What a failure report says: steps that do not encode are dropped.
  unfoldable pub failure_report : Encoder V → Err V → Bool → List (StepResult V) → ℕ → JobReport V
  failure_report encoder err retryable steps offset =
      let (kept, step_err) = encodable_steps encoder steps in
      job_failed (with_invoke_code err (or_step_error step_err (push_error_of err retryable))) kept
        offset

  -- The error that a nil error or a yield turns into when the result or a step does not encode.
  unfoldable pub check_encodes :
      Encoder V → Option V → List (StepResult V) → Option (Err V) → Option (Err V)
  check_encodes encoder result executed err =
      let failure : Option (Err V) = elim (encode_failure encoder result executed).0 [
        | none ↦ err
        | some e ↦ some (new_error e.message e.code false)
      ] in
      elim err [
        | none ↦ failure
        | some e ↦ elim (is_yield_signal e) [ none ↦ some e | some _ ↦ failure ]
      ]

abbrev pub error_context : {V : Type 0} → JobAssignment V → ErrorContext
error_context job = record {
  function_id = job.function_id;
  job_id = job.job_id;
  run_id = job.run_id;
  attempt = job.attempt;
  event_name = job.event.name;
}

module _ {V W : Type 0} (e : JobExecutor V W) where
  -- A panic of the callback is recovered.
  unfoldable pub call_on_error : Err V → JobAssignment V → W → W
  call_on_error err job w = elim e.on_error [
    | none ↦ w
    | some callback ↦ callback err (error_context job) w
  ]

  -- `checkpointer.finish()`: what is left to report.
  unfoldable pub finish : List (StepResult V) → W → List (StepResult V) × ℕ
  finish executed w = elim e.checkpointer [ none ↦ ([], 0) | some at ↦ tail executed (at w) ]

  unfoldable pub unless_cancelled :
      Frame V W → Option (JobReport V) × Frame V W → Option (JobReport V) × Frame V W
  unless_cancelled f result = elim (e.cancellation_err f.world) [
    | some _ ↦ (none, f)
    | none ↦ result
  ]

  -- The ticker's goroutine is over, unless the job is cancelled the report is sent.
  unfoldable pub finish_with :
      (List (StepResult V) → ℕ → JobReport V) → Frame V W → Option (JobReport V) × Frame V W
  finish_with report f =
      let f' = record f { world = e.wait_for_ticker f.world } in
      let (steps, offset) = finish f'.exec.executed_steps f'.world in
      unless_cancelled f' (some (report steps offset), f')

  -- A streaming job's failure still carries its compensations.
  unfoldable pub failed_steps : List (StepResult V) → List (StepResult V) → List (StepResult V)
  failed_steps executed steps = elim e.checkpointer [
    | none ↦ steps ++ compensation_steps executed
    | some _ ↦ steps
  ]

  unfoldable pub compensated : JobAssignment V → Err V → Frame V W → Frame V W
  compensated job err f =
      if has_compensations f.exec
        && is_terminal_failure (is_retryable err) job.attempt job.max_attempts job.on_exhausted
      then execute_compensations e.cancellation_err f
      else f

  unfoldable pub settle_failure :
      JobAssignment V → Err V → Frame V W → Option (JobReport V) × Frame V W
  settle_failure job err f =
      let f' = compensated job err f in
      let told = record f' { world = call_on_error err job f'.world } in
      unless_cancelled f' (
        finish_with
          (λ steps offset.
            failure_report e.encoder err (is_retryable err)
              (failed_steps told.exec.executed_steps steps) offset)
          told)

  -- From the handler's result to the report.
  unfoldable pub settle_checked :
      JobAssignment V → Option V → Option (Err V) → Frame V W → Option (JobReport V) × Frame V W
  settle_checked job result none f = finish_with (job_completed result) f
  settle_checked job result (some err) f = elim (is_yield_signal err) [
    | some info ↦ finish_with (job_yielded info) f
    | none ↦ settle_failure job err f
  ]

  unfoldable pub settle :
      JobAssignment V → Option V → Option (Err V) → Frame V W → Option (JobReport V) × Frame V W
  settle job result err f =
      unless_cancelled f
        (settle_checked job result (check_encodes e.encoder result f.exec.executed_steps err) f)

  abbrev pub recovered : HandlerReply V → Option V × Option (Err V)
  recovered (replied result err) = (result, err)
  recovered (suspended info) = (none, some (yield_signal info))

  -- The handler is called unless the job is cancelled or its event is not valid.
  unfoldable pub run_handler :
      JobFunction V W → Event V → Frame V W → (Option V × Option (Err V)) × Frame V W
  run_handler fn ev f = elim (e.cancellation_err f.world) [
    | some err ↦ ((none, some err), f)
    | none ↦ elim (validate_event_input e.formats e.is_redacted fn.id fn.validate ev) [
      | some err ↦ ((none, some err), f)
      | none ↦ let (reply, f') = fn.handler ev f in (recovered reply, f')
    ]
  ]

  abbrev pub job_event : JobAssignment V → Event V
  job_event job =
      event_of e.parse_time e.decode_metadata (upcasted_data e.is_redacted e.upcasters job.event)
        job.event

  abbrev pub job_frame : JobFunction V W → JobAssignment V → W → Frame V W
  job_frame fn job w = record {
    exec = job_context e.raw e.step_reporter fn.step_timeout job;
    scope = root;
    world = w;
  }

  unfoldable pub execute_function :
      JobFunction V W → JobAssignment V → W → Option (JobReport V) × Frame V W
  execute_function fn job w =
      let (reply, f) = run_handler fn (job_event job) (job_frame fn job w) in
      settle job reply.0 reply.1 f

  -- `execute`
  unfoldable pub execute : JobAssignment V → W → Option (JobReport V) × W
  execute job w = elim (lookup job.function_id e.functions) [
    | none ↦ (
      some (
          job_failed
            (record {
              message = codes "function not found: " ++ job.function_id;
              code = codes "FUNCTION_NOT_FOUND";
              step_id = [];
              retryable = false;
              retry_after_ms = 0;
            })
            [] job.step_sequence_base),
      call_on_error (foreign (codes "function not found: " ++ job.function_id)) job w,
    )
    | some fn ↦ let (report, f) = execute_function fn job w in (report, f.world)
  ]
