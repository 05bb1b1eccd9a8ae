-- ===== src/Exec/Compensate/Order.antt =====
-- The compensations run last registered first; one that fails does not stop the others, one that has
-- completed is not run again.
use ironflow_go.Prelude.{
  ◌≡◌, ◌≢◌, refl, ◌⊎◌, Option, none, List, [], ◌∷◌, ◌++◌, Text, codes, ℕ, ◌≤◌, true, false, length,
  take, lookup,
}
use ironflow_go.StepId.{compensate_prefix}
use ironflow_go.Errors.{Err}
use ironflow_go.Exec.{ExecutionContext, Frame, StepResult, CompensationEntry}
use ironflow_go.Exec.Ids.{generate_root_step_id}
use ironflow_go.Exec.Suspend.{completed_row}
use ironflow_go.Exec.Compensate.{compensate_one}

-- No row of this invocation is completed.
abbrev pub NothingMemoized : {V W : Type 0} → ExecutionContext V W → Type 0
NothingMemoized c = (id : Text) → completed_row (lookup id c.completed_steps) ≡ false

-- What the results say of the entries that were run.
abbrev pub RanFor : {V W : Type 0} → List (StepResult V) → List (CompensationEntry V W) → Type 0
RanFor [] [] = Unit
RanFor [] (e ∷ es) = ⊥
RanFor (r ∷ rs) [] = ⊥
RanFor (r ∷ rs) (e ∷ es) =
    (r.compensation_for ≡ e.step_name)
    × (r.name ≡ compensate_prefix ++ e.step_name)
    × (r.kind ≡ codes "compensate")
    × RanFor rs es

module _ {V W : Type 0} (entry : CompensationEntry V W) (f : Frame V W) where
  -- A compensation with a completed row is not run: the world and the recorded steps stay as they
  -- are.
  pub compensate_memoized :
      completed_row (
          lookup
            (generate_root_step_id (compensate_prefix ++ entry.step_name) f.exec).0
            f.exec.completed_steps)
        ≡ true
      → ((compensate_one entry f).world ≡ f.world)
        × ((compensate_one entry f).exec.executed_steps ≡ f.exec.executed_steps)
  unfolding compensate_one generate_root_step_id
  compensate_memoized memoized = rw memoized (refl, refl)

module _ {V W : Type 0} (cancellation_err : W → Option (Err V)) where
  -- All entries were run, or the rest was left since the run is cancelled.
  abbrev pub RanInOrder : List (CompensationEntry V W) → Frame V W → Frame V W → Type 0
  RanInOrder entries f f' =
      (n : ℕ) × (rs : List (StepResult V)) × (f'.exec.executed_steps ≡ f.exec.executed_steps ++ rs)
      × RanFor rs (take n entries)
      × ((length entries ≤ n) ⊎ (cancellation_err f'.world ≢ none))
