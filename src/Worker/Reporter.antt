-- ===== src/Worker/Reporter.antt =====
-- `httpJobReporter` and `httpPut` of ironflow/worker.go: the updates of a job that a pull worker sends,
-- and what it makes of the answer. A step's result is of the type `StepResult`.
use ironflow_go.Prelude.{
  ℕ, Option, none, some, List, [], ◌∷◌, ◌++◌, Text, codes, Bool, true, false, ◌==◌, ◌&&◌, leb,
  if◌then◌else◌, text_eq, pos,
}
use ironflow_go.Errors.{Err, foreign, wrapped, ironflow_from, new_error, as_ironflow, YieldInfo}
use ironflow_go.Exec.{StepResult}
use ironflow_go.Job.Encode.{PushError}

-- The fence of a job's execution, for an assignment with a lease token.
pub record Fence : Type 0 where
  pub execution_seq : ℕ
  pub lease_token : Text

-- The JSON body of an update; a field that is absent is none.
pub record UpdateBody (V : Type 0) : Type 0 where
  pub status : Text
  pub output : Option (Option V)
  pub error : Option PushError
  pub «yield» : Option (YieldInfo V)
  pub steps : Option (List (StepResult V))
  pub step_offset : ℕ
  pub fence : Option Fence

-- `stampFence`
unfoldable pub stamp_fence :
    {V : Type 0} → (execution_seq : ℕ) (lease_token : Text) → UpdateBody V → UpdateBody V
stamp_fence seq [] body = body
stamp_fence seq (c ∷ token) body = record body {
  fence = some (record { execution_seq = seq; lease_token = c ∷ token });
}

abbrev pub steps_if_any : {V : Type 0} → List (StepResult V) → Option (List (StepResult V))
steps_if_any [] = none
steps_if_any (s ∷ steps) = some (s ∷ steps)

module _ {V : Type 0} where
  -- `ReportCompletedAt`
  abbrev pub completed_body : Option V → List (StepResult V) → ℕ → UpdateBody V
  completed_body output steps offset = record {
    status = codes "completed";
    output = some output;
    error = none;
    «yield» = none;
    steps = some steps;
    step_offset = offset;
    fence = none;
  }

  -- `ReportFailedAt`
  abbrev pub failed_body : PushError → List (StepResult V) → ℕ → UpdateBody V
  failed_body e steps offset = record {
    status = codes "failed";
    output = none;
    error = some e;
    «yield» = none;
    steps = steps_if_any steps;
    step_offset = offset;
    fence = none;
  }

  -- `ReportYieldedAt`
  abbrev pub yielded_body : YieldInfo V → List (StepResult V) → ℕ → UpdateBody V
  yielded_body info steps offset = record {
    status = codes "yielded";
    output = none;
    error = none;
    «yield» = some info;
    steps = steps_if_any steps;
    step_offset = offset;
    fence = none;
  }

  -- `ReportProgress`: without steps nothing is sent.
  abbrev pub progress_body : List (StepResult V) → ℕ → Option (UpdateBody V)
  progress_body [] offset = none
  progress_body (s ∷ steps) offset = some (record {
    status = codes "progress";
    output = none;
    error = none;
    «yield» = none;
    steps = some (s ∷ steps);
    step_offset = offset;
    fence = none;
  })

-- The answer to a PUT: no answer, or a status and the body's text; `stale_body` is whether that is JSON
-- with the error STALE_EXECUTION.
pub data PutReply : Type 0 where
  no_answer : Text → PutReply
  put_status : (status : ℕ) (stale_body : Bool) (text : Text) → PutReply

abbrev pub not_found_error : {V : Type 0} → Err V
not_found_error = foreign (codes "not found")

abbrev pub auth_code : Text → {V : Type 0} → Text → Err V → Err V
auth_code code message cause =
    ironflow_from
      (record { message = message; code = code; retryable = false; retry_after = pos 0 }) cause

abbrev pub stale_code : Text
stale_code = codes "STALE_EXECUTION"

abbrev pub refused_error : {V : Type 0} → ℕ → Bool → Text → Err V
refused_error status stale_body text =
    if status == 409 && stale_body
    then new_error (codes "execution is stale") stale_code false
    else (if status == 404
        then wrapped (codes "not found: " ++ text) not_found_error
        else foreign (codes "request failed: " ++ text))

-- `errors.As` to the server's error, with the code of a stale execution.
abbrev pub is_stale : {V : Type 0} → Err V → Bool
is_stale e = elim (as_ironflow e) [ none ↦ false | some meta ↦ text_eq meta.code stale_code ]

abbrev pub says_stale : PutReply → Bool
says_stale (no_answer text) = false
says_stale (put_status status stale_body text) = status == 409 && stale_body

module _ {V : Type 0} (auth_message : ℕ → Text) where
  -- `authError`, of ironflow/errors.go; the message is a parameter.
  abbrev pub auth_error : ℕ → Option (Err V)
  auth_error status =
      if status == 401
      then some
          (auth_code (codes "unauthenticated") (auth_message 401) (foreign (codes "unauthorized")))
      else (if status == 403
          then some (
              auth_code (codes "permission_denied") (auth_message 403)
                (foreign (codes "forbidden")))
          else none)

  -- `httpPut`, as its error.
  unfoldable pub http_put : PutReply → Option (Err V)
  unfolding new_error
  http_put (no_answer text) = some (foreign text)
  http_put (put_status status stale_body text) =
      if leb 400 status
      then elim (auth_error status) [
        | some e ↦ some e
        | none ↦ some (refused_error status stale_body text)
      ]
      else none

  -- `putUpdate`: the error, and whether the job is cancelled.
  unfoldable pub put_update : PutReply → Option (Err V) × Bool
  unfolding http_put as_ironflow
  put_update reply = elim (http_put reply) [
    | none ↦ (none, false)
    | some e ↦ if is_stale e then (none, true) else (some e, false)
  ]
