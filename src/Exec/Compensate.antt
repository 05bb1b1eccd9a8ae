-- ===== src/Exec/Compensate.antt =====
-- Compensations (ironflow/step.go): the registry, and its run in reverse when a run has failed.
pub mod Order
use mathlib.Core.List.{reverse}
use ironflow_go.Prelude.{
  ℕ, Option, none, some, List, [], ◌∷◌, ◌++◌, Text, codes, Bool, true, false, if◌then◌else◌,
}
use ironflow_go.StepId.{compensate_prefix}
use ironflow_go.Errors.{Err, error_text}
use ironflow_go.Exec.{
  CompletedStep, StepResult, CompensationEntry, CompensationRun, ExecutionContext, Frame, Action,
  returned, in_exec,
}
use ironflow_go.Exec.Ids.{generate_root_step_id}
use ironflow_go.Exec.Suspend.{completed_row}
use ironflow_go.Prelude.{lookup}

-- What a compensation's run is recorded as. A failed one may not be retried.
unfoldable pub compensation_result : {V : Type 0} → Text → Text → CompensationRun V → StepResult V
compensation_result id step_name run = record {
  id = id;
  name = compensate_prefix ++ step_name;
  kind = codes "compensate";
  status = elim run.error [ none ↦ codes "completed" | some _ ↦ codes "failed" ];
  duration = run.took;
  output = none;
  error = elim run.error [
    | none ↦ none
    | some e ↦ some (record { message = error_text e; retryable = false })
  ];
  compensation_for = step_name;
}

module _ {V W : Type 0} where
  -- `registerCompensation`
  unfoldable pub register_compensation : CompensationEntry V W → Action V W (Unit {0})
  register_compensation entry =
      in_exec (λ c. record c { compensations = c.compensations ++ entry ∷ [] })

  unfoldable pub has_compensations : ExecutionContext V W → Bool
  has_compensations c = elim c.compensations [ [] ↦ false | _ ∷ _ ↦ true ]

  -- One compensation that is not memoized, with the id that was generated for it.
  unfoldable pub run_compensation : Text → CompensationEntry V W → Frame V W → Frame V W
  unfolding compensation_result
  run_compensation id entry f =
      let (run, w) = entry.handler f.world in
      record f {
        exec = record f.exec {
          executed_steps = f.exec.executed_steps ++ compensation_result id entry.step_name run ∷ [];
        };
        world = w;
      }

  -- One round of the loop once the run is known not to be cancelled.
  unfoldable pub compensate_one : CompensationEntry V W → Frame V W → Frame V W
  compensate_one entry f =
      let (id, c) = generate_root_step_id (compensate_prefix ++ entry.step_name) f.exec in
      let f' = record f { exec = c } in
      if completed_row (lookup id c.completed_steps) then f' else run_compensation id entry f'

  module _ (cancellation_err : W → Option (Err V)) where
    unfoldable pub compensate_each : List (CompensationEntry V W) → Frame V W → Frame V W
    compensate_each [] f = f
    compensate_each (entry ∷ rest) f =
        let f' = compensate_each rest (compensate_one entry f) in
        elim (cancellation_err f.world) [ some _ ↦ f | none ↦ f' ]

    -- `executeCompensations`, over a copy of the registry.
    unfoldable pub execute_compensations : Frame V W → Frame V W
    unfolding compensate_each
    execute_compensations f = compensate_each (reverse f.exec.compensations) f
