-- ===== src/Exec/Invoke.antt =====
-- `Invoke` and `InvokeAsync` (ironflow/step.go): a call of another function, whose child run is
-- made by the engine after the caller yields, and whose outcome comes back as a row.
pub mod Outcomes
use ironflow_go.Prelude.{
  ℕ, ◌/◌, Option, none, some, List, [], ◌∷◌, ◌++◌, Text, codes, Bool, true, false, if◌then◌else◌,
  text_eq, ℤ, is_pos, pos_part,
}
use ironflow_go.Errors.{Err, YieldInfo, foreign, wrapped, invoke_error}
use ironflow_go.Exec.{
  CompletedStep, Frame, Outcome, Action, returned, errored, ◌>>=◌, ◌>>◌, panic, check_cancelled,
  mark_scoped_used,
}
use ironflow_go.Exec.Ids.{generate_step_id, get_completed_step}
use ironflow_go.Exec.Run.{Json, Try, done, failed}

-- The object that a failed child run leaves.
pub record InvokeErrorFields : Type 0 where
  pub message : Text
  pub function_id : Text
  pub child_run_id : Text
  pub cause : Text

-- `encoding/json` on a memoized error: its bytes, the string that it is if that is valid JSON, and
-- the fields that bytes decode to.
pub record ErrorJson (V : Type 0) : Type 0 where
  pub marshal : Option V → Try Text
  pub as_json_string : Option V → Option Text
  pub parse : Text → Option InvokeErrorFields

-- `[]byte` of a failed `json.Marshal` is empty.
abbrev pub bytes_of : Try Text → Text
bytes_of (done raw) = raw
bytes_of (failed m) = []

-- The second where the first is empty.
abbrev pub or_text : Text → Text → Text
or_text [] other = other
or_text (c ∷ s) other = c ∷ s

abbrev pub error_bytes : {V : Type 0} → ErrorJson V → Option V → Text
error_bytes json raw = elim (json.as_json_string raw) [
  | some s ↦ s
  | none ↦ bytes_of (json.marshal raw)
]

unfoldable pub parse_invoke_error : {V : Type 0} → ErrorJson V → Text → Option V → Err V
parse_invoke_error json function_id raw = elim (json.parse (error_bytes json raw)) [
  | none ↦ invoke_error function_id [] (error_bytes json raw)
  | some e ↦
      invoke_error (or_text e.function_id function_id) e.child_run_id (or_text e.cause e.message)
]

-- 30 seconds, or the option's positive timeout in whole milliseconds.
abbrev pub invoke_timeout : ℤ → ℕ
invoke_timeout option = if is_pos option then pos_part option / 1000000 else 30000

abbrev pub invoke_yield : {V : Type 0} → Text → Text → Text → Option V → ℕ → YieldInfo V
invoke_yield kind id function_id input timeout_ms = record {
  step_id = id;
  kind = kind;
  until = [];
  event_filter = none;
  function_id = function_id;
  input = input;
  invoke_timeout_ms = timeout_ms;
}

module _ {V A : Type 0} (json : Json V A) where
  -- The memoized result of a call, with the error that `fail` makes of a library's text.
  abbrev pub invoke_output : (Text → Text → Err V) → Option V → Outcome V A
  invoke_output fail output = elim (json.marshal output) [
    | failed m ↦ errored (fail (codes "failed to marshal memoized output: ") m)
    | done raw ↦ elim (json.unmarshal raw) [
      | failed m ↦ errored (fail (codes "failed to unmarshal memoized output: ") m)
      | done a ↦ returned a
    ]
  ]

abbrev pub as_invoke_error : {V : Type 0} → Text → Text → Text → Err V
as_invoke_error function_id what m = invoke_error function_id [] (what ++ m)

abbrev pub as_wrapped : {V : Type 0} → Text → Text → Err V
as_wrapped what m = wrapped (what ++ m) (foreign m)

module _ {V W A : Type 0} (errors : ErrorJson V) (json : Json V A) where
  -- The `switch` of `invokeImpl` on the row's status.
  unfoldable pub invoke_row : Text → Option (CompletedStep V) → Action V W A → Action V W A
  unfolding parse_invoke_error
  invoke_row function_id none rest = rest
  invoke_row function_id (some step) rest =
      if text_eq step.status (codes "completed")
      then (λ f. (invoke_output json (as_invoke_error function_id) step.output, f))
      else if text_eq step.status (codes "failed")
      then (λ f. (errored (parse_invoke_error errors function_id step.error), f))
      else if text_eq step.status (codes "timed_out")
      then (λ f. (errored (invoke_error function_id [] (codes "invoke timed out")), f))
      else rest

  -- The `switch` of `invokeAsyncImpl`, which has no case for a timeout.
  unfoldable pub invoke_async_row : Text → Option (CompletedStep V) → Action V W A → Action V W A
  unfolding parse_invoke_error
  invoke_async_row function_id none rest = rest
  invoke_async_row function_id (some step) rest =
      if text_eq step.status (codes "completed")
      then (λ f. (invoke_output json as_wrapped step.output, f))
      else if text_eq step.status (codes "failed")
      then (λ f. (errored (parse_invoke_error errors function_id step.error), f))
      else rest

  module _ (cancellation_err : W → Option (Err V)) where
    -- `invokeImpl`
    unfoldable pub invoke_impl : Text → Option V → ℤ → Action V W A
    unfolding check_cancelled mark_scoped_used get_completed_step
    invoke_impl function_id input option = do
      mark_scoped_used
      check_cancelled cancellation_err
      id ← generate_step_id function_id
      completed ← get_completed_step id
      invoke_row function_id completed (
          panic
            (invoke_yield (codes "invoke_function") id function_id input (invoke_timeout option)))

    -- `invokeAsyncImpl`
    unfoldable pub invoke_async_impl : Text → Option V → Action V W A
    unfolding check_cancelled mark_scoped_used get_completed_step
    invoke_async_impl function_id input = do
      mark_scoped_used
      check_cancelled cancellation_err
      id ← generate_step_id function_id
      completed ← get_completed_step id
      invoke_async_row function_id completed
          (panic (invoke_yield (codes "invoke_function_async") id function_id input 0))
