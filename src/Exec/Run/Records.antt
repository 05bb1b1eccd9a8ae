-- ===== src/Exec/Run/Records.antt =====
-- A step with no completed row runs its function once and records one result.
use ironflow_go.Prelude.{
  ◌≡◌, refl, Option, none, some, [], ◌∷◌, ◌++◌, Text, codes, ℤ, true, lookup, text_eq_ne, ◌≢◌,
}
use ironflow_go.Errors.{Err, Formats}
use ironflow_go.Errors.Retry.{is_retryable}
use ironflow_go.Exec.{
  CompletedStep, StepResult, StepErrorInfo, Frame, Outcome, Action, returned, errored, panicked,
  running, branch, BranchContext,
}
use ironflow_go.Exec.Ids.{generate_root_step_id, generate_branch_step_id}
use ironflow_go.Exec.Ids.Keeps.{completed_steps-generate}
use ironflow_go.Exec.Run.{
  Json, FnRun, value, error, Timed, finished, timed_out, execute_step, record_outcome,
  failed_result, completed_result, if_memoized, run_with_step_id, run_branch_with_step_id,
}

-- What the caller is told fits what the result says.
abbrev pub Fits : {V A : Type 0} → Json V A → Outcome V A → StepResult V → Type 0
Fits json (returned a) r =
    (r.status ≡ codes "completed") × (r.output ≡ json.to_any a) × (r.error ≡ none)
Fits {V} json (errored e) r =
    (r.status ≡ codes "failed")
    × (r.output ≡ none)
    × (info : StepErrorInfo) × (r.error ≡ some info)
    × (info.retryable ≡ is_retryable e)
Fits json (panicked info) r = ⊥

-- One result of this step was added, and it fits what the caller is told.
abbrev pub Recorded :
    {V W A : Type 0} → Json V A → Text → Text → Frame V W → Outcome V A × Frame V W → Type 0
Recorded {V} json id name before after =
    (r : StepResult V) × (after.1.exec.executed_steps ≡ before.exec.executed_steps ++ r ∷ [])
    × (r.id ≡ id)
    × (r.name ≡ name)
    × Fits json after.0 r

module _ {V W A : Type 0} (formats : Formats) (json : Json V A)
    (fn : Text → W → FnRun V A × W) where
  record_outcome-Recorded :
      (id name : Text) (timed : Timed V A) (f : Frame V W)
      → Recorded json id name f (record_outcome formats json fn id name timed f)
  unfolding record_outcome is_retryable
  record_outcome-Recorded id name (timed_out err took) f =
      (failed_result id name err took, refl, refl, refl, (refl, refl, _, refl, refl))
  record_outcome-Recorded id name (finished (error err) took) f =
      (failed_result id name err took, refl, refl, refl, (refl, refl, _, refl, refl))
  record_outcome-Recorded id name (finished (value a) took) f =
      (completed_result id name (json.to_any a) took, refl, refl, refl, (refl, refl, refl))

  world-record_outcome :
      (id name : Text) (timed : Timed V A) (f : Frame V W)
      → (record_outcome formats json fn id name timed f).1.world ≡ f.world
  unfolding record_outcome
  world-record_outcome id name (timed_out err took) f = refl
  world-record_outcome id name (finished (error err) took) f = refl
  world-record_outcome id name (finished (value a) took) f = refl

  execute_step-Recorded :
      (option : ℤ) (id name : Text) (f : Frame V W)
      → Recorded json id name f (execute_step formats json fn option id name f)
  unfolding execute_step
  execute_step-Recorded option id name f = record_outcome-Recorded id name _ _

  world-execute_step :
      (option : ℤ) (id name : Text) (f : Frame V W)
      → (execute_step formats json fn option id name f).1.world ≡ (fn id f.world).1
  unfolding execute_step
  world-execute_step option id name f = world-record_outcome id name _ _

-- No row with this id is completed: there is none, or it says something else.
abbrev pub NotCompleted : {V : Type 0} → Option (CompletedStep V) → Type 0
NotCompleted none = Unit
NotCompleted (some step) = step.status ≢ codes "completed"

if_memoized_not :
    {V W A : Type 0} (json : Json V A) (id name : Text) (row : Option (CompletedStep V))
    (rest : Action V W A)
    → NotCompleted row
    → if_memoized json id name row rest ≡ rest
unfolding if_memoized
if_memoized_not json id name none rest h = refl
if_memoized_not json id name (some step) rest h = rw (text_eq_ne step.status (codes "completed") h)

module _ {V W A : Type 0} (formats : Formats) (json : Json V A) (fn : Text → W → FnRun V A × W)
    (cancellation_err : W → Option (Err V)) (name : Text) (option : ℤ) (f : Frame V W)
    (live : cancellation_err f.world ≡ none) where
  run_executes :
      NotCompleted (lookup (generate_root_step_id name f.exec).0 f.exec.completed_steps)
      → run_with_step_id formats json fn cancellation_err name option f
        ≡ execute_step formats json fn option
            (generate_root_step_id name f.exec).0
            name
            (record f { exec = (generate_root_step_id name f.exec).1 })
  unfolding run_with_step_id
  run_executes fresh =
      rw (live, run_with_step_id, running)
        (rw completed_steps-generate (rw (if_memoized_not json _ name _ _ fresh)))

  -- A root step that no completed row answers, in an invocation that is not cancelled: its function
  -- is called once, with the step's id, and what it did to the world is all that was done; one
  -- result is appended to those recorded so far, with that id and name. It is "completed", with the
  -- value as its output, if the caller gets a value, and "failed", with the retryability of the
  -- caller's error, if the caller gets an error; there is no other outcome.
  pub run_records_once :
      NotCompleted (lookup (generate_root_step_id name f.exec).0 f.exec.completed_steps)
      → let id = (generate_root_step_id name f.exec).0 in
        let after = run_with_step_id formats json fn cancellation_err name option f in
        (after.1.world ≡ (fn id f.world).1) × Recorded json id name f after
  unfolding generate_root_step_id
  run_records_once fresh = rw (run_executes fresh) (
    world-execute_step formats json fn option _ name _,
    execute_step-Recorded formats json fn option _ name _,
  )

module _ {V W A : Type 0} (formats : Formats) (json : Json V A) (fn : Text → W → FnRun V A × W)
    (cancellation_err : W → Option (Err V)) (name : Text) (option : ℤ) (f : Frame V W)
    (b : BranchContext) (live : cancellation_err f.world ≡ none) where
  abbrev used : BranchContext
  used = record b { scoped_client_used = true }

  -- A step in a branch that no completed row answers, in an invocation that is not cancelled: its
  -- function is called once, with the id that the branch's own counters give, and what it did to the
  -- world is all that was done; one result is appended to the run's, "completed" with the caller's
  -- value or "failed" with the retryability of the caller's error; there is no other outcome.
  pub run_branch_records_once :
      NotCompleted (lookup (generate_branch_step_id name f.exec used).0 f.exec.completed_steps)
      → let id = (generate_branch_step_id name f.exec used).0 in
        let before = record f { scope = branch b } in
        let after = run_branch_with_step_id formats json fn cancellation_err name option before in
        (after.1.world ≡ (fn id f.world).1) × Recorded json id name before after
  unfolding run_branch_with_step_id
  run_branch_records_once fresh =
      rw (live, run_branch_with_step_id, running)
        (rw (if_memoized_not json _ name _ _ fresh) (
          world-execute_step formats json fn option _ name _,
          execute_step-Recorded formats json fn option _ name _,
        ))
