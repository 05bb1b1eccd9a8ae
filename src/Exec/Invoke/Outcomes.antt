-- ===== src/Exec/Invoke/Outcomes.antt =====
-- What the caller of another function sees of the child run.
use ironflow_go.Prelude.{◌≡◌, ◌⊎◌, Option, Text, codes, false, arith, ℤ}
use ironflow_go.Errors.{Err, YieldInfo}
use ironflow_go.Errors.Retry.{is_retryable}
use ironflow_go.Exec.{CompletedStep, Frame, Outcome, returned, errored, panicked, scoped, panic}
use ironflow_go.Exec.Ids.{generate_step_id}
use ironflow_go.Exec.Ids.Keeps.{claimed}
use ironflow_go.Exec.Run.{Json}
use ironflow_go.Exec.Invoke.{ErrorJson, invoke_row, invoke_yield, invoke_timeout}

-- A row that ends a call.
abbrev pub IsSettled : {V : Type 0} → CompletedStep V → Type 0
IsSettled row =
    (row.status ≡ codes "completed")
    ⊎ (row.status ≡ codes "failed")
    ⊎ (row.status ≡ codes "timed_out")

-- A value, or an error that may not be retried; never a suspension.
abbrev pub IsFinal : {V A : Type 0} → Outcome V A → Type 0
IsFinal (returned a) = Unit
IsFinal (errored e) = is_retryable e ≡ false
IsFinal (panicked info) = ⊥

module _ {V W A : Type 0} (errors : ErrorJson V) (json : Json V A) (function_id : Text) where
  invoke_row_yields :
      (row : Option (CompletedStep V)) (id : Text) (input : Option V) (option : ℤ) (f : Frame V W)
      (info : YieldInfo V)
      → (invoke_row errors json function_id row
          (panic
            (invoke_yield (codes "invoke_function") id function_id input (invoke_timeout option)))
          f).0
        ≡ panicked info
      → (info ≡ invoke_yield (codes "invoke_function") id function_id input (invoke_timeout option))
  unfolding invoke_row
  invoke_row_yields row id input option f info h = ground arith

module _ {V W A : Type 0} (cancellation_err : W → Option (Err V)) (errors : ErrorJson V)
    (json : Json V A) (function_id : Text) (input : Option V) (option : ℤ) (f : Frame V W) where
  abbrev scoped_frame : Frame V W
  scoped_frame = record f { scope = scoped f.scope }

  abbrev invoke_id : Text
  invoke_id = claimed (generate_step_id function_id scoped_frame).0
