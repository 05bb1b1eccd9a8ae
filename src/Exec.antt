-- ===== src/Exec.antt =====
-- The execution context of one invocation (ironflow/step.go, with `CompletedStep`, `StepResult`,
-- `ResumeContext` and `BranchContext` of ironflow/types.go), and the actions on it. A step runs in a
-- scope: the function itself (`Context`) or one branch of a fan-out (`*BranchContext`). Values of
-- type `any` are of a type `V` (nil is `none`); what user code and the outside world do is a change
-- of a state of type `W`. A panic with a yield signal is an outcome of its own.
pub mod Ids
pub mod Run
pub mod Suspend
pub mod Invoke
pub mod Compensate
use ironflow_go.Prelude.{
  ℕ, ◌+◌, Option, none, some, List, [], ◌∷◌, ◌++◌, Text, Bool, true, false, ℤ, pos, codes,
}
use ironflow_go.Errors.{Err, YieldInfo}

pub record CompletedStep (V : Type 0) : Type 0 where
  pub id : Text
  pub name : Text
  pub status : Text
  pub output : Option V
  pub error : Option V

pub record StepErrorInfo : Type 0 where
  pub message : Text
  pub retryable : Bool

-- The wall-clock times are left out; the duration is in nanoseconds.
pub record StepResult (V : Type 0) : Type 0 where
  pub id : Text
  pub name : Text
  pub kind : Text
  pub status : Text
  pub duration : ℕ
  pub output : Option V
  pub error : Option StepErrorInfo
  pub compensation_for : Text

pub record ResumeContext (V : Type 0) : Type 0 where
  pub step_id : Text
  pub kind : Text
  pub resume_data : Option V

-- What a `stepLifecycleReporter` is told.
pub data StepReport (V : Type 0) : Type 0 where
  step_started : Text → Text → Text → StepReport V
  step_completed : Text → Text → Text → Option V → ℕ → StepReport V
  step_failed : Text → Text → Text → Text → ℕ → StepReport V

-- A compensation handler answers with an error or nil, and takes some time.
pub record CompensationRun (V : Type 0) : Type 0 where
  pub error : Option (Err V)
  pub took : ℕ

pub record CompensationEntry (V W : Type 0) : Type 0 where
  pub step_name : Text
  pub handler : W → CompensationRun V × W

-- `stepReporter` is nil, or the list of what it was told so far.
pub record ExecutionContext (V W : Type 0) : Type 0 where
  pub run_id : Text
  pub function_id : Text
  pub attempt : ℕ
  pub step_counters : List (Text × ℕ)
  pub completed_steps : List (Text × CompletedStep V)
  pub executed_steps : List (StepResult V)
  pub resume_context : Option (ResumeContext V)
  pub resume_handled : Bool
  pub compensations : List (CompensationEntry V W)
  pub step_reporter : Option (List (StepReport V))
  pub step_timeout : ℤ
  pub fan_out_depth : ℕ
  pub enclosing_claims : ℕ
  pub warned_unscoped : List Text

pub record BranchContext : Type 0 where
  pub scope_prefix : Text
  pub legacy_scope_prefix : Text
  pub step_counters : List (Text × ℕ)
  pub scoped_client_used : Bool

pub data Scope : Type 0 where
  root : Scope
  branch : BranchContext → Scope

-- What a step primitive reads and writes: the run-wide context, its scope, and the world.
pub record Frame (V W : Type 0) : Type 0 where
  pub exec : ExecutionContext V W
  pub scope : Scope
  pub world : W

-- A Go call returns a value, returns an error, or panics with a yield signal.
pub data Outcome (V : Type 0) (A : Type 0) : Type 0 where
  returned : A → Outcome V A
  errored : Err V → Outcome V A
  panicked : YieldInfo V → Outcome V A

abbrev pub Action : Type 0 → Type 0 → Type 0 → Type 0
Action V W A = Frame V W → Outcome V A × Frame V W

module _ {V W A B : Type 0} where
  abbrev pub continue : Outcome V A → (A → Action V W B) → Action V W B
  continue (returned a) k f = k a f
  continue (errored e) k f = (errored e, f)
  continue (panicked info) k f = (panicked info, f)

  infixl 5 ◌>>=◌
  abbrev pub ◌>>=◌ : Action V W A → (A → Action V W B) → Action V W B
  ◌>>=◌ m k f = let (outcome, f') = m f in continue outcome k f'

module _ {V W B : Type 0} where
  infixl 5 ◌>>◌
  abbrev pub ◌>>◌ : Action V W (Unit {0}) → Action V W B → Action V W B
  m >> n = m >>= λ _. n

module _ {V W A : Type 0} where
  abbrev pub pure : A → Action V W A
  pure a f = (returned a, f)

  abbrev pub raise : Err V → Action V W A
  raise e f = (errored e, f)

  abbrev pub panic : YieldInfo V → Action V W A
  panic info f = (panicked info, f)

-- A nil reporter is told nothing.
abbrev pub told :
    {V : Type 0} → StepReport V → Option (List (StepReport V)) → Option (List (StepReport V))
told event none = none
told event (some log) = some (log ++ event ∷ [])

-- A branch records that its scope was used; at the root there is nothing to record.
abbrev pub scoped : Scope → Scope
scoped root = root
scoped (branch b) = branch (record b { scoped_client_used = true })

module _ {V W : Type 0} where
  abbrev pub in_exec : (ExecutionContext V W → ExecutionContext V W) → Action V W (Unit {0})
  in_exec change f = (returned tt, record f { exec = change f.exec })

  -- `if err := exec.cancellationErr(); err != nil { return zero, err }`: what the worker's context
  -- says is a function of the world.
  unfoldable pub check_cancelled : (W → Option (Err V)) → Action V W (Unit {0})
  check_cancelled cancellation_err f = elim (cancellation_err f.world) [
    | none ↦ (returned tt, f)
    | some e ↦ (errored e, f)
  ]

  unfoldable pub report : StepReport V → Action V W (Unit {0})
  report event = in_exec (λ c. record c { step_reporter = told event c.step_reporter })

  -- `exec.executedSteps = append(exec.executedSteps, step)`; a branch appends to its parent's list.
  unfoldable pub record_step : StepResult V → Action V W (Unit {0})
  record_step step = in_exec (λ c. record c { executed_steps = c.executed_steps ++ step ∷ [] })

  unfoldable pub mark_scoped_used : Action V W (Unit {0})
  mark_scoped_used f = (returned tt, record f { scope = scoped f.scope })

-- To compute a block whose first action is decided by a hypothesis.
pub ruleset running = (check_cancelled, ◌>>=◌, ◌>>◌, continue)
