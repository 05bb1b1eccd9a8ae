-- ===== src/Exec/Run.antt =====
-- `Run` and `RunWithBranch` (ironflow/step.go, ironflow/parallel.go): a step that runs once, whose
-- result is memoized. JSON encoding, the step's function and the choice of the timer are parameters.
pub mod Memo
pub mod Records
pub mod Replay
use ironflow_go.Prelude.{
  ℕ, ◌/◌, Option, none, some, List, [], ◌∷◌, ◌++◌, Text, codes, Bool, true, false, ◌&&◌,
  if◌then◌else◌, text_eq, ℤ, is_pos, is_zero,
}
use ironflow_go.Errors.{Err, foreign, Formats, error_text, new_step_error, new_step_timeout_error}
use ironflow_go.Errors.Retry.{is_retryable}
use ironflow_go.Exec.{
  CompletedStep, StepResult, StepErrorInfo, step_started, step_completed, step_failed, Frame,
  Outcome, Action, returned, errored, ◌>>=◌, ◌>>◌, pure, raise, check_cancelled, report,
  record_step, mark_scoped_used,
}
use ironflow_go.Exec.Ids.{generate_step_id, claim_root_step_id, get_completed_step}

-- A call of a library that returns a value or an error, of which the text is known.
pub data Try (A : Type 0) : Type 0 where
  done : A → Try A
  failed : Text → Try A

-- `encoding/json` between `any` (nil is `none`), its bytes, and the step's type; and the conversion
-- of a value of that type to `any`.
pub record Json (V A : Type 0) : Type 0 where
  pub marshal : Option V → Try Text
  pub unmarshal : Text → Try A
  pub to_any : A → Option V

-- What one run of a step's function gives.
pub data FnResult (V A : Type 0) : Type 0 where
  value : A → FnResult V A
  error : Err V → FnResult V A

-- Whether `select` takes the timer's case is the environment's choice (read only where there is a
-- timeout), and so is the time that passes until the step is over, in nanoseconds.
pub record FnRun (V A : Type 0) : Type 0 where
  pub result : FnResult V A
  pub late : Bool
  pub took : ℕ

pub data Timed (V A : Type 0) : Type 0 where
  finished : FnResult V A → ℕ → Timed V A
  timed_out : Err V → ℕ → Timed V A

-- Milliseconds of a duration, cut off: `Duration.Milliseconds()`.
abbrev pub milliseconds : ℕ → ℕ
milliseconds d = d / 1000000

-- timeout: step-level > function-level > none
unfoldable pub resolve_timeout : ℤ → ℤ → ℤ
resolve_timeout option step_timeout =
    if is_zero option && is_pos step_timeout then step_timeout else option

abbrev pub is_completed {ℓ} : {A : Type ℓ} → Text → A → A → A
is_completed status x y = if text_eq status (codes "completed") then x else y

module _ {V : Type 0} where
  unfoldable pub failed_result : Text → Text → Err V → ℕ → StepResult V
  failed_result id name err took = record {
    id = id;
    name = name;
    kind = codes "invoke";
    status = codes "failed";
    duration = took;
    output = none;
    error = some (record { message = error_text err; retryable = is_retryable err });
    compensation_for = [];
  }

  unfoldable pub completed_result : Text → Text → Option V → ℕ → StepResult V
  completed_result id name output took = record {
    id = id;
    name = name;
    kind = codes "invoke";
    status = codes "completed";
    duration = took;
    output = output;
    error = none;
    compensation_for = [];
  }

module _ {V A : Type 0} (json : Json V A) where
  -- The memoized output at the type that is asked for.
  unfoldable pub memoized_output : Text → Text → CompletedStep V → Outcome V A
  memoized_output id name step = elim (json.marshal step.output) [
    | failed m ↦ errored (
        new_step_error (codes "failed to marshal memoized output: " ++ m) id name false
          (some (foreign m)))
    | done raw ↦ elim (json.unmarshal raw) [
      | failed m ↦ errored (
          new_step_error (codes "failed to unmarshal memoized output: " ++ m) id name false
            (some (foreign m)))
      | done a ↦ returned a
    ]
  ]

module _ {V W A : Type 0} (json : Json V A) where
  -- `if completed, ok := …; ok && completed.Status == "completed"`: the output, or the code below.
  unfoldable pub if_memoized : Text → Text → Option (CompletedStep V) → Action V W A → Action V W A
  if_memoized id name none rest = rest
  if_memoized id name (some step) rest =
      is_completed step.status (λ f. (memoized_output json id name step, f)) rest

module _ {V W A : Type 0} (formats : Formats) (json : Json V A)
    (fn : Text → W → FnRun V A × W) where
  abbrev select : ℤ → Text → FnRun V A → Timed V A
  select timeout name run =
      if is_pos timeout && run.late
      then timed_out (new_step_timeout_error formats name timeout) run.took
      else finished run.result run.took

  -- The function's effects stay, also where the timer is faster.
  unfoldable pub run_with_timeout : ℤ → Text → Text → Action V W (Timed V A)
  run_with_timeout timeout id name f =
      let (run, w) = fn id f.world in (returned (select timeout name run), record f { world = w })

  -- A timeout and a failure of the function are recorded and reported alike. The caller gets the
  -- timeout's error as it is, and the function's in a step error.
  unfoldable pub record_outcome : Text → Text → Timed V A → Action V W A
  unfolding failed_result completed_result record_step report new_step_error
  record_outcome id name (timed_out err took) = do
    record_step (failed_result id name err took)
    report (step_failed id name (codes "invoke") (error_text err) (milliseconds took))
    raise err
  record_outcome id name (finished (error err) took) = do
    record_step (failed_result id name err took)
    report (step_failed id name (codes "invoke") (error_text err) (milliseconds took))
    raise (new_step_error (error_text err) id name (is_retryable err) (some err))
  record_outcome id name (finished (value a) took) = do
    record_step (completed_result id name (json.to_any a) took)
    report (step_completed id name (codes "invoke") (json.to_any a) (milliseconds took))
    pure a

  -- The step runs.
  unfoldable pub execute_step : ℤ → Text → Text → Action V W A
  unfolding record_outcome run_with_timeout resolve_timeout
  execute_step option id name f =
      (do
        report (step_started id name (codes "invoke"))
        timed ← run_with_timeout (resolve_timeout option f.exec.step_timeout) id name
        record_outcome id name timed)
        f

  module _ (cancellation_err : W → Option (Err V)) where
    -- At the root; `option` is the timeout of `WithTimeout`, 0 without it.
    unfoldable pub run_with_step_id : Text → ℤ → Action V W A
    unfolding check_cancelled claim_root_step_id get_completed_step if_memoized
    run_with_step_id name option = do
      check_cancelled cancellation_err
      id ← claim_root_step_id name
      completed ← get_completed_step id
      if_memoized json id name completed (execute_step option id name)

    -- In a branch.
    unfoldable pub run_branch_with_step_id : Text → ℤ → Action V W A
    unfolding check_cancelled generate_step_id get_completed_step if_memoized mark_scoped_used
    run_branch_with_step_id name option = do
      mark_scoped_used
      check_cancelled cancellation_err
      id ← generate_step_id name
      completed ← get_completed_step id
      if_memoized json id name completed (execute_step option id name)
