-- ===== src/Parallel/Call.antt =====
-- The calls themselves: `Parallel` and `ParallelWithBranch` of ironflow/parallel.go around the schedule
-- of their branches, which is the environment's: it is given the branches' contexts and the run as it
-- stands, and leaves the slots, the contexts and the run as they are when all branches are over.
use ironflow_go.Prelude.{
  ℕ, zero, suc, ◌+◌, ◌-◌, ◌≡◌, refl, ap, ◌∙◌, inl, inr, Option, none, some, Option-cases, List, [],
  ◌∷◌, Text, Bool, arith, map,
}
use ironflow_go.Errors.{Err}
use ironflow_go.Exec.{
  ExecutionContext, BranchContext, Scope, root, branch, Frame, Outcome, returned, errored, panicked,
  scoped,
}
use ironflow_go.Exec.Ids.{create_branch_context, create_nested_branch_context}
use ironflow_go.Parallel.{ParallelOptions, with_default, Slot, had_error, settle_slots}
use ironflow_go.Parallel.Warning.{
  UnscopedWarning, warn_unscoped_branches, enclosing_claims_for,
  warn_unscoped_branches-fan_out_depth,
}

-- What is left when `wg.Wait()` returns.
pub record Waited (V W R : Type 0) : Type 0 where
  pub slots : List (Slot V R)
  pub branches : List BranchContext
  pub frame : Frame V W

-- What a call answers, what it logs, and the run after it.
pub record Called (V W R : Type 0) : Type 0 where
  pub outcome : Outcome V (List (Option R))
  pub warning : Option UnscopedWarning
  pub frame : Frame V W

module _ {V R : Type 0} where
  abbrev pub error_of : Slot V R → Option (Err V)
  error_of (had_error e) = some e
  error_of _ = none

-- The contexts of the branches from `i` on: below the root, or below a branch.
module _ {V W : Type 0} where
  abbrev pub branch_context : Text → ℕ → Scope → ExecutionContext V W → BranchContext
  branch_context name i root c = create_branch_context name i c
  branch_context name i (branch b) c = create_nested_branch_context name i b

  unfoldable pub branch_contexts : Text → ℕ → ℕ → Scope → ExecutionContext V W → List BranchContext
  branch_contexts name zero i scope c = []
  branch_contexts name (suc n) i scope c =
      branch_context name i scope c ∷ branch_contexts name n (suc i) scope c

  abbrev pub with_depth : ℕ → Frame V W → Frame V W
  with_depth depth f = record f { exec = record f.exec { fan_out_depth = depth } }

abbrev pub raised : {V W : Type 0} → Frame V W → ℕ
raised f = f.exec.fan_out_depth + 1

module _ {V W R : Type 0} (options : ParallelOptions) (skip_check : Bool) (name : Text) where
  -- The deferred decrement comes after whatever the call ends with. Only a call that returns warns.
  abbrev pub ended : ℕ → ℕ → Waited V W R → Outcome V (List (Option R)) → Called V W R
  ended depth claims_before w (returned results) =
      let (warning, c) =
        warn_unscoped_branches skip_check name w.branches (map error_of w.slots)
          (enclosing_claims_for depth claims_before w.frame.exec) w.frame.exec in
      record {
        outcome = returned results;
        warning = warning;
        frame = with_depth (c.fan_out_depth - 1) (record w.frame { exec = c });
      }
  ended depth claims_before w (errored e) = record {
    outcome = errored e;
    warning = none;
    frame = with_depth (w.frame.exec.fan_out_depth - 1) w.frame;
  }
  ended depth claims_before w (panicked info) = record {
    outcome = panicked info;
    warning = none;
    frame = with_depth (w.frame.exec.fan_out_depth - 1) w.frame;
  }

  unfoldable pub run_fan_out :
      ℕ → (List BranchContext → Frame V W → Waited V W R) → Frame V W → Called V W R
  run_fan_out zero schedule f = record { outcome = returned []; warning = none; frame = f }
  run_fan_out (suc n) schedule f =
      let waited =
        schedule (branch_contexts name (suc n) 0 f.scope f.exec) (with_depth (raised f) f) in
      ended (raised f) f.exec.enclosing_claims waited
        (settle_slots (with_default options) waited.slots)

  -- `Parallel` where the scope is the root, `ParallelWithBranch` where it is a branch, which then has
  -- used its scope.
  unfoldable pub parallel :
      (W → Option (Err V))
      → ℕ
      → (List BranchContext → Frame V W → Waited V W R)
      → Frame V W
      → Called V W R
  parallel cancellation_err n schedule f = elim (cancellation_err f.world) [
    | some e ↦ record { outcome = errored e; warning = none; frame = f }
    | none ↦ run_fan_out n schedule (record f { scope = scoped f.scope })
  ]

  ended-fan_out_depth :
      (depth claims_before : ℕ) (waited : Waited V W R) (outcome : Outcome V (List (Option R)))
      → (ended depth claims_before waited outcome).frame.exec.fan_out_depth
        ≡ waited.frame.exec.fan_out_depth - 1
  ended-fan_out_depth depth claims_before waited (returned results) =
      ap (λ d. d - 1)
        (warn_unscoped_branches-fan_out_depth name skip_check waited.branches
          (map error_of waited.slots) (enclosing_claims_for depth claims_before waited.frame.exec)
          waited.frame.exec)
  ended-fan_out_depth depth claims_before waited (errored e) = refl
  ended-fan_out_depth depth claims_before waited (panicked info) = refl

  -- A fan-out, at the root or in a branch, whose branches leave the depth of fan-outs as they find it
  -- leaves it as it found it, whether it returns, returns an error, panics with a yield, is cancelled
  -- or has no branches; so it can be nested, and after it root ids are not counted as claimed from
  -- within a fan-out.
  pub fan_out_depth_restored :
      (cancellation_err : W → Option (Err V)) (n : ℕ)
      (schedule : List BranchContext → Frame V W → Waited V W R) (f : Frame V W)
      → ((branches : List BranchContext) (g : Frame V W)
          → (schedule branches g).frame.exec.fan_out_depth ≡ g.exec.fan_out_depth)
      → (parallel cancellation_err n schedule f).frame.exec.fan_out_depth ≡ f.exec.fan_out_depth
  unfolding parallel run_fan_out
  fan_out_depth_restored cancellation_err zero schedule f kept =
      elim (Option-cases (cancellation_err f.world)) [
        | inl live ↦ rw (live, parallel) refl
        | inr (e, cancelled) ↦ rw (cancelled, parallel) refl
      ]
  fan_out_depth_restored cancellation_err (suc n) schedule f kept =
      elim (Option-cases (cancellation_err f.world)) [
        | inr (e, cancelled) ↦ rw (cancelled, parallel) refl
        | inl live ↦
            rw (live, parallel)
              (ended-fan_out_depth _ _ _ _ ∙ ap (λ d. d - 1) (kept _ _) ∙ omega arith)
      ]
