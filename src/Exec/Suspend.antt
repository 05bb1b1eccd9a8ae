-- ===== src/Exec/Suspend.antt =====
-- The steps that suspend a run (ironflow/step.go, ironflow/parallel.go): `Sleep`, `SleepUntil`,
-- `SleepWithBranch`, `WaitForEvent` and its optional form, with the decoding of the event.
pub mod Resumes
pub mod Events
use ironflow_go.Prelude.{
  ℕ, ◌*◌, Option, none, some, List, [], ◌∷◌, ◌++◌, Text, codes, Bool, true, false, not, ◌&&◌, ◌||◌,
  if◌then◌else◌, text_eq, ℤ, pos, is_zero,
}
use ironflow_go.Errors.{Err, EventFilter, foreign, new_step_error}
use ironflow_go.Errors.Yields.{new_sleep_yield, new_wait_event_yield, hour}
use ironflow_go.Exec.{
  CompletedStep, Frame, Outcome, Action, returned, errored, ◌>>=◌, ◌>>◌, pure, panic,
  check_cancelled, mark_scoped_used,
}
use ironflow_go.Exec.Ids.{
  generate_step_id, claim_root_step_id, get_completed_step, is_resuming_from, get_resume_data,
  mark_resume_handled,
}
use ironflow_go.Exec.Run.{Try, done, failed}

-- `ok && completed.Status == "completed"`
abbrev pub completed_row : {V : Type 0} → Option (CompletedStep V) → Bool
completed_row none = false
completed_row (some step) = text_eq step.status (codes "completed")

abbrev pub output_of : {V : Type 0} → Option (CompletedStep V) → Option V
output_of none = none
output_of (some step) = step.output

-- The result of `json.Unmarshal` into an `Event`; the fields that are not looked at are in `rest`.
pub record Event (R : Type 0) : Type 0 where
  pub id : Text
  pub name : Text
  pub has_timestamp : Bool
  pub raw_data : Text
  pub emitted_by : Text
  pub rest : R

-- `encoding/json` on a wait's result: `any` to bytes, bytes to an `Event`, and the "data" of bytes
-- as its own bytes (empty where it is missing).
pub record EventJson (V R : Type 0) : Type 0 where
  pub marshal : Option V → Try Text
  pub parse_event : Text → Try (Event R)
  pub parse_data : Text → Try Text

module _ {V R : Type 0} (json : EventJson V R) where
  -- An envelope of the engine has an id, a name and a time.
  abbrev pub is_envelope : Event R → Bool
  is_envelope e = not (text_eq e.id []) && not (text_eq e.name []) && e.has_timestamp

  abbrev pub bare : Event R → Event R
  bare e = record e { emitted_by = [] }

  abbrev from_envelope : Text → Event R → Text → Event R
  from_envelope raw e d =
      if text_eq d []
      then record e { emitted_by = []; raw_data = raw }
      else record e { raw_data = d }

  -- `decodeWaitEvent`: "emittedBy" of anything but an envelope is dropped.
  unfoldable pub decode_wait_event : Text → Try (Event R)
  decode_wait_event raw = elim (json.parse_event raw) [
    | failed m ↦ failed m
    | done e ↦
        if not (text_eq e.raw_data [])
        then done (bare e)
        else if is_envelope e
        then elim (json.parse_data raw) [
          | failed m ↦ failed m
          | done d ↦ done (from_envelope raw e d)
        ]
        else done (record e { emitted_by = []; raw_data = raw })
  ]

  abbrev null_text : Text
  null_text = codes "wait result is null; use WaitForEventOptional for nullable waits"

  abbrev null_result : Bool → Text → Text → Outcome V (Option (Event R))
  null_result optional id name =
      if optional then returned none else errored (new_step_error null_text id name false none)

  -- The `decode` of `waitForEventImpl`.
  unfoldable pub decode_wait_result : Bool → Text → Text → Option V → Outcome V (Option (Event R))
  decode_wait_result optional id name none = null_result optional id name
  decode_wait_result optional id name (some v) = elim (json.marshal (some v)) [
    | failed m ↦ errored (
        new_step_error (codes "failed to marshal wait event: " ++ m) id name false
          (some (foreign m)))
    | done raw ↦
        if text_eq raw (codes "null")
        then null_result optional id name
        else elim (decode_wait_event raw) [
          | failed m ↦ errored (
              new_step_error (codes "failed to unmarshal wait event: " ++ m) id name false
                (some (foreign m)))
          | done e ↦ returned (some e)
        ]
  ]

-- A wait has a deadline of seven days where none is given.
abbrev pub seven_days : ℤ
seven_days = pos (7 * (24 * hour))

abbrev pub wait_filter : {V : Type 0} → Bool → EventFilter V → EventFilter V
wait_filter optional filter = record filter {
  timeout = if is_zero filter.timeout then seven_days else filter.timeout;
  on_timeout = if optional then codes "return-null" else filter.on_timeout;
}

module _ {V W : Type 0} where
  -- What is left once the step has its id; `until` is the wake time in RFC 3339.
  unfoldable pub sleep_at : (W → Text) → Text → Action V W (Unit {0})
  unfolding is_resuming_from get_completed_step
  sleep_at until id = do
    resuming ← is_resuming_from id (codes "sleep")
    completed ← get_completed_step id
    if resuming
        then mark_resume_handled
        else if completed_row completed
        then pure tt
        else (λ f. panic (new_sleep_yield id (until f.world)) f)

module _ {V W R : Type 0} (json : EventJson V R) where
  abbrev finish_wait : Bool → Text → Text → Option V → Action V W (Option (Event R))
  finish_wait optional id name v f = (decode_wait_result json optional id name v, f)

  -- Nothing but the suspension is left; a resume without data comes here too.
  unfoldable pub suspend_wait : Bool → Text → EventFilter V → Action V W (Option (Event R))
  suspend_wait optional id filter = panic (new_wait_event_yield id (wait_filter optional filter))

  abbrev resume_wait : Bool → Text → Text → EventFilter V → Option V → Action V W (Option (Event R))
  resume_wait optional id name filter none = suspend_wait optional id filter
  resume_wait optional id name filter (some v) = finish_wait optional id name (some v)

  -- The rows come first, then the resume's data.
  unfoldable pub wait_at : Bool → Text → Text → EventFilter V → Action V W (Option (Event R))
  unfolding is_resuming_from get_completed_step get_resume_data mark_resume_handled
  wait_at optional id name filter = do
    completed ← get_completed_step id
    resuming ← is_resuming_from id (codes "wait_for_event")
    if completed_row completed
        then (do
          if resuming then mark_resume_handled else pure tt
          finish_wait optional id name (output_of completed))
        else if resuming
        then (do mark_resume_handled; v ← get_resume_data; resume_wait optional id name filter v)
        else suspend_wait optional id filter

module _ {V W : Type 0} (cancellation_err : W → Option (Err V)) where
  -- `Sleep`: `wake_at` is the time now plus a duration, as the world has it.
  unfoldable pub sleep : (ℤ → W → Text) → Text → ℤ → Action V W (Unit {0})
  unfolding check_cancelled claim_root_step_id
  sleep wake_at name duration = do
    check_cancelled cancellation_err
    id ← claim_root_step_id name
    sleep_at (wake_at duration) id

  -- `sleepUntilImpl`, on either kind of scope.
  unfoldable pub sleep_until : Text → Text → Action V W (Unit {0})
  unfolding check_cancelled mark_scoped_used
  sleep_until name until = do
    mark_scoped_used
    check_cancelled cancellation_err
    id ← generate_step_id name
    sleep_at (λ _. until) id

  -- `SleepWithBranch` marks the scope only when the run is not cancelled.
  unfoldable pub sleep_with_branch : (ℤ → W → Text) → Text → ℤ → Action V W (Unit {0})
  unfolding check_cancelled mark_scoped_used
  sleep_with_branch wake_at name duration = do
    check_cancelled cancellation_err
    mark_scoped_used
    id ← generate_step_id name
    sleep_at (wake_at duration) id

  module _ {R : Type 0} (json : EventJson V R) where
    -- `waitForEventImpl`
    unfoldable pub wait_for_event_impl : Bool → Text → EventFilter V → Action V W (Option (Event R))
    unfolding check_cancelled mark_scoped_used
    wait_for_event_impl optional name filter = do
      mark_scoped_used
      check_cancelled cancellation_err
      id ← generate_step_id name
      wait_at json optional id name filter
