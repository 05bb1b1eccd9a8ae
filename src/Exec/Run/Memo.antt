-- ===== src/Exec/Run/Memo.antt =====
-- A step with a completed row does not run: both forms of `Run` only decode the row.
use ironflow_go.Prelude.{◌≡◌, true, Option, none, some, Text, codes, ℤ, lookup, text_eq_refl}
use ironflow_go.Errors.{Err, Formats}
use ironflow_go.Exec.{running, CompletedStep, Frame, branch, BranchContext}
use ironflow_go.Exec.Ids.{generate_root_step_id, generate_branch_step_id}
use ironflow_go.Exec.Ids.Keeps.{completed_steps-generate}
use ironflow_go.Exec.Run.{
  Json, FnRun, if_memoized, memoized_output, run_with_step_id, run_branch_with_step_id,
}

module _ {V W A : Type 0} (formats : Formats) (json : Json V A) (fn : Text → W → FnRun V A × W)
    (cancellation_err : W → Option (Err V)) (name : Text) (option : ℤ) (f : Frame V W)
    (step : CompletedStep V) where
  -- A root step whose id has a completed row answers from the row, whatever its function and its
  -- timeout are: the world, the recorded steps and the reports stay as they are, and only the
  -- counter of the name goes up.
  pub run_memoized :
      cancellation_err f.world ≡ none
      → lookup (generate_root_step_id name f.exec).0 f.exec.completed_steps ≡ some step
      → step.status ≡ codes "completed"
      → run_with_step_id formats json fn cancellation_err name option f ≡ (
        memoized_output json (generate_root_step_id name f.exec).0 name step,
        record f { exec = (generate_root_step_id name f.exec).1 },
      )
  unfolding run_with_step_id if_memoized
  run_memoized live row done =
      rw (live, run_with_step_id, running)
        (rw (completed_steps-generate, row) (rw done (rw (text_eq_refl (codes "completed")))))

  -- A step of a branch whose id has a completed row answers from the row: the world, the recorded
  -- steps and the reports stay as they are, the branch is marked as used, and its own counter of the
  -- name goes up.
  pub run_branch_memoized :
      (b : BranchContext)
      → let b' = record b { scoped_client_used = true } in
        cancellation_err f.world ≡ none
        → lookup (generate_branch_step_id name f.exec b').0 f.exec.completed_steps ≡ some step
        → step.status ≡ codes "completed"
        → run_branch_with_step_id formats json fn cancellation_err name option
            (record f { scope = branch b })
          ≡ (
            memoized_output json (generate_branch_step_id name f.exec b').0 name step,
            record f { scope = branch (generate_branch_step_id name f.exec b').1 },
          )
  unfolding run_branch_with_step_id if_memoized
  run_branch_memoized b live row done =
      rw (live, run_branch_with_step_id, running)
        (rw row (rw done (rw (text_eq_refl (codes "completed")))))
