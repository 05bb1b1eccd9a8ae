-- ===== src/Examples/Jobs.antt =====
-- A job of a pull worker and of a streaming worker, and the checkpoints of one.
use ironflow_go.Prelude.{
  ℕ, zero, suc, ◌==◌, if◌then◌else◌, ◌+◌, ◌≡◌, length, ◌⊎◌, Option, none, some, List, [], ◌∷◌, ◌++◌,
  Text, codes, true, false, pos, All,
}
use ironflow_go.Errors.{Err, foreign, is_yield_signal}
use ironflow_go.Errors.Retry.{is_retryable, is_terminal_failure}
use ironflow_go.Exec.{StepResult, Frame}
use ironflow_go.Exec.Run.{done}
use ironflow_go.Job.Encode.{Encoder}
use ironflow_go.Job.Checkpoint.{tail}
use ironflow_go.Job.Checkpoint.Delivered.{
  CheckpointEvent, recorded, ticked, Placed, begin, progress_after, checkpoints_and_tail,
}
use ironflow_go.Job.Assignment.{JobAssignment, Event}
use ironflow_go.Job.Execute.{
  JobFunction, JobExecutor, HandlerReply, replied, run_handler, job_event, job_frame, execute,
  execute_function, check_encodes,
}
use ironflow_go.Job.Execute.Reports.{Whenever, ReportEncodes, reports_encode}
use ironflow_go.Job.Execute.Settles.{Settles, compensates_if_terminal}
use ironflow_go.Examples.Fixtures.{plain_formats, never}

-- Steps with no name and the result 13 do not encode.
abbrev no_thirteen : Option ℕ → Option Text
no_thirteen none = none
no_thirteen (some n) = if n == 13 then some (codes "13") else none

abbrev step_refused : Text → Option Text
step_refused [] = some (codes "no name")
step_refused (c ∷ name) = none

abbrev strict_encoder : Encoder ℕ
strict_encoder = record {
  step_error = λ s. step_refused s.name;
  result_error = no_thirteen;
  quoted = λ s. s;
}

abbrev step_named : Text → StepResult ℕ
step_named name = record {
  id = codes "run:" ++ name;
  name = name;
  kind = codes "invoke";
  status = codes "completed";
  duration = 0;
  output = some 7;
  error = none;
  compensation_for = [];
}

abbrev good_step : StepResult ℕ
good_step = step_named (codes "a")

abbrev two_steps : List (StepResult ℕ)
two_steps = good_step ∷ step_named [] ∷ []

-- The first flush is answered by an error, the second is acknowledged.
abbrev ticks : List (CheckpointEvent ℕ)
ticks =
    recorded good_step
    ∷ ticked none (some (foreign (codes "timeout")))
    ∷ recorded (step_named (codes "b"))
    ∷ ticked none none
    ∷ recorded (step_named (codes "c"))
    ∷ []

checkpoints_and_tail_example :
    let p = progress_after strict_encoder ticks (begin 4) in
    (p.server.acknowledged ++ (tail p.executed p.checkpointer).0 ≡ p.executed)
    × ((tail p.executed p.checkpointer).1 ≡ 4 + length p.server.acknowledged)
    × All (Placed 4 p.executed) p.server.received
checkpoints_and_tail_example = checkpoints_and_tail strict_encoder 4 ticks

-- A handler that records a step and counts in the world, then returns 7.
abbrev record_and_return : Event ℕ → Frame ℕ ℕ → HandlerReply ℕ × Frame ℕ ℕ
record_and_return ev f = (
  replied (some 7) none,
  record f {
    exec = record f.exec { executed_steps = f.exec.executed_steps ++ good_step ∷ [] };
    world = f.world + 1;
  },
)

abbrev plain_function : JobFunction ℕ ℕ
plain_function = record {
  id = codes "fn";
  step_timeout = pos 0;
  validate = none;
  handler = record_and_return;
}

abbrev pull_executor : (ℕ → Option (Err ℕ)) → JobExecutor ℕ ℕ
pull_executor cancellation_err = record {
  functions = (codes "fn", plain_function) ∷ [];
  upcasters = none;
  on_error = none;
  checkpointer = some (λ w. record { base = 4; cursor = 0 });
  step_reporter = none;
  cancellation_err = cancellation_err;
  wait_for_ticker = λ w. w;
  encoder = strict_encoder;
  formats = plain_formats;
  is_redacted = λ event_data. false;
  raw = λ bytes. 0;
  parse_time = λ t. 0;
  decode_metadata = λ bytes. done 0;
}

abbrev plain_job : JobAssignment ℕ
plain_job = record {
  job_id = codes "job";
  run_id = codes "run";
  function_id = codes "fn";
  attempt = 1;
  max_attempts = 3;
  on_exhausted = codes "fail";
  event = record {
    id = codes "e";
    name = codes "order.placed";
    version = 1;
    data_bytes = [];
    timestamp = [];
    idempotency_key = [];
    source = [];
    metadata = [];
  };
  completed_steps = [];
  step_sequence_base = 4;
}

-- The job is cancelled as soon as its handler has run.
abbrev once_counted : ℕ → Option (Err ℕ)
once_counted zero = none
once_counted (suc n) = some (foreign (codes "context canceled"))

reports_encode_example :
    Whenever (ReportEncodes strict_encoder) (execute (pull_executor never) plain_job 0).0
reports_encode_example = reports_encode (pull_executor never) plain_job 0

compensates_if_terminal_example :
    let e = pull_executor never in
    let (reply, f) =
      run_handler e plain_function
        (job_event e plain_job)
        (job_frame e plain_function plain_job 0) in
    ((execute_function e plain_function plain_job 0).1.exec ≡ f.exec)
    ⊎ ((err : Err ℕ) × (check_encodes e.encoder reply.0 f.exec.executed_steps reply.1 ≡ some err)
        × (is_yield_signal err ≡ none)
        × (is_terminal_failure (is_retryable err) 1 3 (codes "fail") ≡ true))
compensates_if_terminal_example =
    compensates_if_terminal (pull_executor never) plain_function plain_job 0
