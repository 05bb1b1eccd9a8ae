-- ===== src/Job/Encode.antt =====
-- ironflow/encode_guard.go: what JSON cannot encode is found before the report is sent. Encoding is
-- a parameter: nil, or the text of the error.
pub mod Kept
use ironflow_go.Prelude.{ℕ, Option, none, some, List, [], ◌∷◌, ◌++◌, Text, codes, Bool, true, false}
use ironflow_go.Exec.{StepResult}

pub record PushError : Type 0 where
  pub message : Text
  pub code : Text
  pub step_id : Text
  pub retryable : Bool
  pub retry_after_ms : ℕ

abbrev pub code_serialization_error : Text
code_serialization_error = codes "SERIALIZATION_ERROR"

-- `%q` of the step's name is a parameter too.
pub record Encoder (V : Type 0) : Type 0 where
  pub step_error : StepResult V → Option Text
  pub result_error : Option V → Option Text
  pub quoted : Text → Text

module _ {V : Type 0} (encoder : Encoder V) where
  abbrev pub step_push_error : StepResult V → Text → PushError
  step_push_error s m = record {
    message =
        codes "step " ++ encoder.quoted s.name ++ codes " output is not JSON-encodable: " ++ m;
    code = code_serialization_error;
    step_id = s.id;
    retryable = false;
    retry_after_ms = 0;
  }

  -- The steps before the first that does not encode, and the error for that one.
  unfoldable pub encodable_steps : List (StepResult V) → List (StepResult V) × Option PushError
  encodable_steps [] = ([], none)
  encodable_steps (s ∷ steps) =
      let (kept, e) = encodable_steps steps in
      elim (encoder.step_error s) [
        | some m ↦ ([], some (step_push_error s m))
        | none ↦ (s ∷ kept, e)
      ]

  unfoldable pub encode_failure :
      Option V → List (StepResult V) → Option PushError × List (StepResult V)
  encode_failure result steps =
      let (kept, e) = encodable_steps steps in
      elim e [
        | some push_error ↦ (some push_error, kept)
        | none ↦ elim (encoder.result_error result) [
          | none ↦ (none, steps)
          | some m ↦ (
            some (record {
              message = codes "function result is not JSON-encodable: " ++ m;
              code = code_serialization_error;
              step_id = [];
              retryable = false;
              retry_after_ms = 0;
            }),
            steps,
          )
        ]
      ]
