-- ===== src/Exec/Ids.antt =====
-- ironflow/step.go: which id a step gets. The counter of its name in its scope gives the index; a
-- row memoized under the unescaped spelling, from before the escaping, is still found.
pub mod Keeps
pub mod Distinct
pub mod Sequence
pub mod Legacy
use ironflow_go.Prelude.{
  ℕ, ◌+◌, Option, none, some, List, [], ◌∷◌, Text, Bool, true, false, ◌&&◌, ltb, if◌then◌else◌,
  text_eq, lookup, insert, contains,
}
use ironflow_go.StepId.{format_id, escape_step_id_part}
use ironflow_go.Exec.{
  CompletedStep, ResumeContext, ExecutionContext, BranchContext, Scope, root, branch, Frame, Action,
  returned, in_exec,
}

-- `counters[name]`, which is 0 for a name that has none.
unfoldable pub counter : Text → List (Text × ℕ) → ℕ
counter name counters = elim (lookup name counters) [ none ↦ 0 | some index ↦ index ]

-- `createBranchContext` of a branch.
unfoldable pub create_nested_branch_context : Text → ℕ → BranchContext → BranchContext
create_nested_branch_context parallel_name index b = record {
  scope_prefix = format_id b.scope_prefix (escape_step_id_part parallel_name) index;
  legacy_scope_prefix = format_id b.legacy_scope_prefix parallel_name index;
  step_counters = [];
  scoped_client_used = false;
}

abbrev resuming : {V : Type 0} → Option (ResumeContext V) → Text → Text → Bool
resuming none id kind = false
resuming (some r) id kind = text_eq r.step_id id && text_eq r.kind kind

abbrev resume_data_of : {V : Type 0} → Option (ResumeContext V) → Option V
resume_data_of none = none
resume_data_of (some r) = r.resume_data

module _ {V W : Type 0} where
  unfoldable pub prefer_legacy_step_id : ExecutionContext V W → Text → Text → Text
  prefer_legacy_step_id c id legacy =
      if text_eq legacy id
      then id
      else if contains id c.completed_steps
      then id
      else if contains legacy c.completed_steps
      then legacy
      else id

  -- `(c *executionContext) generateStepID`
  unfoldable pub generate_root_step_id : Text → ExecutionContext V W → Text × ExecutionContext V W
  generate_root_step_id name c =
      let index = counter name c.step_counters in
      (
        prefer_legacy_step_id c (format_id c.run_id (escape_step_id_part name) index)
            (format_id c.run_id name index),
        record c {
          step_counters = insert name (index + 1) c.step_counters;
          enclosing_claims =
              if ltb 0 c.fan_out_depth then c.enclosing_claims + 1 else c.enclosing_claims;
        },
      )

  -- `(b *BranchContext) generateStepID`
  unfoldable pub generate_branch_step_id :
      Text → ExecutionContext V W → BranchContext → Text × BranchContext
  generate_branch_step_id name c b =
      let index = counter name b.step_counters in
      (
        prefer_legacy_step_id c (format_id b.scope_prefix (escape_step_id_part name) index)
            (format_id b.legacy_scope_prefix name index),
        record b { step_counters = insert name (index + 1) b.step_counters },
      )

  -- A claim at the root, whatever the scope that the caller was handed.
  unfoldable pub claim_root_step_id : Text → Action V W Text
  claim_root_step_id name f =
      let (id, c) = generate_root_step_id name f.exec in (returned id, record f { exec = c })

  -- The method of the `StepContext` interface, on either kind of scope.
  abbrev generate_in : Scope → Text → Action V W Text
  generate_in root name = claim_root_step_id name
  generate_in (branch b) name = λ f.
      let (id, b') = generate_branch_step_id name f.exec b in
      (returned id, record f { scope = branch b' })

  unfoldable pub generate_step_id : Text → Action V W Text
  unfolding claim_root_step_id
  generate_step_id name f = generate_in f.scope name f

  -- `createBranchContext` of the run's context.
  unfoldable pub create_branch_context : Text → ℕ → ExecutionContext V W → BranchContext
  create_branch_context parallel_name index c = record {
    scope_prefix = format_id c.run_id (escape_step_id_part parallel_name) index;
    legacy_scope_prefix = format_id c.run_id parallel_name index;
    step_counters = [];
    scoped_client_used = false;
  }

  unfoldable pub get_completed_step : Text → Action V W (Option (CompletedStep V))
  get_completed_step id f = (returned (lookup id f.exec.completed_steps), f)

  unfoldable pub is_resuming_from : Text → Text → Action V W Bool
  is_resuming_from id kind f = (returned (resuming f.exec.resume_context id kind), f)

  unfoldable pub get_resume_data : Action V W (Option V)
  get_resume_data f = (returned (resume_data_of f.exec.resume_context), f)

  unfoldable pub mark_resume_handled : Action V W (Unit {0})
  mark_resume_handled = in_exec (λ c. record c { resume_handled = true })
