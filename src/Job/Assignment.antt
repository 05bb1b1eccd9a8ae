-- ===== src/Job/Assignment.antt =====
-- ironflow/job_executor.go: a job's assignment and what the executor makes of it: the memoized rows
-- of the run, the event in its latest version, and the check of the event against the function's
-- `Validate` (ironflow/function.go). Also `newExecutionContext` of ironflow/step.go, its counterpart
-- for a pushed run. Raw JSON as a value, the timestamp's parser, and JSON's decoder are parameters.
use ironflow_go.Prelude.{
  ℕ, Option, none, some, List, [], ◌∷◌, ◌++◌, Text, codes, Bool, false, ℤ, pos, if◌then◌else◌,
  text_eq, insert,
}
use ironflow_go.Errors.{
  Err, wrapped, Formats, error_text, new_non_retryable_error, wrap_non_retryable,
}
use ironflow_go.Exec.{CompletedStep, ResumeContext, StepReport, ExecutionContext}
use ironflow_go.Exec.Run.{Try, done, failed}
use ironflow_go.Upcaster.{data_ok, UpcasterRegistry, upcast_to_latest}

-- `completedStep`: a row as the server sends it.
pub record AssignedStep (V : Type 0) : Type 0 where
  pub step_id : Text
  pub name : Text
  pub output : Text
  pub status : Text
  pub error : Option V

pub record JobEvent : Type 0 where
  pub id : Text
  pub name : Text
  pub version : ℕ
  pub data_bytes : Text
  pub timestamp : Text
  pub idempotency_key : Text
  pub source : Text
  pub metadata : Text

-- The secrets and the execution fence are left out.
pub record JobAssignment (V : Type 0) : Type 0 where
  pub job_id : Text
  pub run_id : Text
  pub function_id : Text
  pub attempt : ℕ
  pub max_attempts : ℕ
  pub on_exhausted : Text
  pub event : JobEvent
  pub completed_steps : List (AssignedStep V)
  pub step_sequence_base : ℕ

-- `Event`, as the handler sees it.
pub record Event (V : Type 0) : Type 0 where
  pub id : Text
  pub name : Text
  pub version : ℕ
  pub raw_data : Text
  pub timestamp : ℕ
  pub idempotency_key : Text
  pub source : Text
  pub metadata : Option V

abbrev pub default_status : Text → Text
default_status [] = codes "completed"
default_status (c ∷ status) = c ∷ status

module _ {V : Type 0} where
  abbrev pub row_output : (Text → V) → Text → Option V
  row_output raw [] = none
  row_output raw (c ∷ output) = some (raw (c ∷ output))

  -- An empty status is that of a completed step; an output without bytes is none.
  unfoldable pub assigned_row : (Text → V) → AssignedStep V → CompletedStep V
  assigned_row raw step = record {
    id = step.step_id;
    name = step.name;
    status = default_status step.status;
    output = row_output raw step.output;
    error = step.error;
  }

  unfoldable pub index_assigned :
      (Text → V)
      → List (AssignedStep V)
      → List (Text × CompletedStep V)
      → List (Text × CompletedStep V)
  index_assigned raw [] rows = rows
  index_assigned raw (step ∷ steps) rows =
      index_assigned raw steps (insert step.step_id (assigned_row raw step) rows)

  -- A later row of an id replaces an earlier one.
  unfoldable pub index_steps :
      List (CompletedStep V) → List (Text × CompletedStep V) → List (Text × CompletedStep V)
  index_steps [] rows = rows
  index_steps (step ∷ steps) rows = index_steps steps (insert step.id step rows)

module _ {V W : Type 0} where
  abbrev empty_context : Text → Text → ℕ → ExecutionContext V W
  empty_context run_id function_id attempt = record {
    run_id = run_id;
    function_id = function_id;
    attempt = attempt;
    step_counters = [];
    completed_steps = [];
    executed_steps = [];
    resume_context = none;
    resume_handled = false;
    compensations = [];
    step_reporter = none;
    step_timeout = pos 0;
    fan_out_depth = 0;
    enclosing_claims = 0;
    warned_unscoped = [];
  }

  -- `newExecutionContext`, of a pushed run.
  unfoldable pub new_execution_context :
      Text → Text → ℕ → List (CompletedStep V) → Option (ResumeContext V) → ExecutionContext V W
  new_execution_context run_id function_id attempt steps resume =
      record (empty_context run_id function_id attempt) {
        completed_steps = index_steps steps [];
        resume_context = resume;
      }

  -- The context that `execute` builds; a streaming worker's reporter is told of each step.
  unfoldable pub job_context :
      (Text → V) → Option (List (StepReport V)) → ℤ → JobAssignment V → ExecutionContext V W
  job_context raw reporter step_timeout job =
      record (empty_context job.run_id job.function_id job.attempt) {
        completed_steps = index_assigned raw job.completed_steps [];
        step_reporter = reporter;
        step_timeout = step_timeout;
      }

-- The event's data is brought to its latest version where that succeeds, and kept where it fails.
unfoldable pub upcasted_data : (Text → Bool) → Option UpcasterRegistry → JobEvent → Text
upcasted_data is_redacted none event = event.data_bytes
upcasted_data is_redacted (some registry) event =
    elim (upcast_to_latest is_redacted registry event.name event.data_bytes event.version) [
      | data_ok bytes ↦ bytes
      | _ ↦ event.data_bytes
    ]

module _ {V : Type 0} (parse_time : Text → ℕ) (decode_metadata : Text → Try V) where
  -- Metadata that does not decode is dropped.
  unfoldable pub event_metadata : Text → Option V
  event_metadata [] = none
  event_metadata (c ∷ bytes) = elim (decode_metadata (c ∷ bytes)) [
    | done v ↦ some v
    | failed m ↦ none
  ]

  unfoldable pub event_of : Text → JobEvent → Event V
  event_of raw_data event = record {
    id = event.id;
    name = event.name;
    version = event.version;
    raw_data = raw_data;
    timestamp = parse_time event.timestamp;
    idempotency_key = event.idempotency_key;
    source = event.source;
    metadata = event_metadata event.metadata;
  }

-- `validateEventInput`, with the function's id and its `Validate`.
unfoldable pub validate_event_input :
    {V : Type 0}
    → Formats
    → (Text → Bool)
    → Text
    → Option (Text → Option (Err V))
    → Event V
    → Option (Err V)
validate_event_input formats is_redacted id none ev = none
validate_event_input formats is_redacted id (some validate) ev =
    if text_eq ev.source (codes "cron")
    then none
    else if is_redacted ev.raw_data
    then some (
        new_non_retryable_error (
          codes "event "
          ++ formats.quoted ev.name
          ++ codes " for function "
          ++ formats.quoted id
          ++ codes
              " was redacted: its payload was irreversibly replaced with a placeholder and cannot satisfy Validate"))
    else elim (validate ev.raw_data) [
      | none ↦ none
      | some e ↦ some (
          wrap_non_retryable (
            wrapped
              (codes "validation failed in event "
                ++ formats.quoted ev.name
                ++ codes " for function "
                ++ formats.quoted id
                ++ codes ": "
                ++ error_text e)
              e))
    ]
