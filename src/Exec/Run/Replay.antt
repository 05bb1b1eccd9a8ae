-- ===== src/Exec/Run/Replay.antt =====
-- A step that completed in one invocation is answered by its row in the next.
use ironflow_go.Prelude.{
  ◌≡◌, ◌≢◌, refl, subst, sym, ap, ◌∙◌, Option, none, some, List, [], ◌∷◌, ◌++◌, Text, codes, ℤ,
  false, lookup, contains,
}
use ironflow_go.Errors.{Err, Formats}
use ironflow_go.StepId.{format_id, escape_step_id_part}
use ironflow_go.Exec.{CompletedStep, StepResult, Frame, Outcome, returned}
use ironflow_go.Exec.Ids.{generate_root_step_id, counter}
use ironflow_go.Exec.Ids.Legacy.{generate_stable}
use ironflow_go.Exec.Run.{Json, FnRun, done, memoized_output, run_with_step_id}
use ironflow_go.Exec.Run.Memo.{run_memoized}
use ironflow_go.Exec.Run.Records.{NotCompleted, Fits, Recorded, run_records_once}

last_injective : {A : Type 0} (xs : List A) (x y : A) → xs ++ x ∷ [] ≡ xs ++ y ∷ [] → x ≡ y
last_injective [] x y h = cc
last_injective (z ∷ xs) x y h = last_injective xs x y (cc)

-- The row that the engine keeps of a reported result.
abbrev pub row_of : {V : Type 0} → StepResult V → CompletedStep V
row_of r = record { id = r.id; name = r.name; status = r.status; output = r.output; error = none }

-- A value comes back from its JSON.
abbrev pub DecodesTo : {V A : Type 0} → Json V A → A → Type 0
DecodesTo json a =
    (raw : Text) × (json.marshal (json.to_any a) ≡ done raw) × (json.unmarshal raw ≡ done a)

memoized_output-row_of :
    {V A : Type 0} (json : Json V A) (id name : Text) (a : A) (r : StepResult V)
    → DecodesTo json a
    → r.output ≡ json.to_any a
    → memoized_output json id name (row_of r) ≡ returned a
unfolding memoized_output
memoized_output-row_of json id name a r (raw, encodes, decodes) e =
    rw e (rw (encodes, memoized_output) (rw (decodes, memoized_output)))

-- The result that was added is the one that the caller's value belongs to.
Recorded-value :
    {V W A : Type 0} (json : Json V A) (id name : Text) (f : Frame V W)
    (after : Outcome V A × Frame V W) (a : A) (r : StepResult V)
    → Recorded json id name f after
    → after.0 ≡ returned a
    → after.1.exec.executed_steps ≡ f.exec.executed_steps ++ r ∷ []
    → (r.status ≡ codes "completed") × (r.output ≡ json.to_any a)
Recorded-value json id name f (outcome, f') a r (r', added, _, _, fits) e added' =
    let same : r' ≡ r = last_injective f.exec.executed_steps r' r (sym added ∙ added') in
    let fits' : Fits json (returned a) r' = subst (λ o. Fits json o r') e fits in
    (ap (λ s. s.status) (sym same) ∙ fits'.0, ap (λ s. s.output) (sym same) ∙ fits'.1)

module _ {V W A : Type 0} (formats : Formats) (json : Json V A)
    (cancellation_err : W → Option (Err V)) (name : Text) (a : A) (r : StepResult V)
    (f g : Frame V W) where
  -- A root step that ran in one invocation and returned a value is not run again in the next one of
  -- the same run that reaches the same count of its name and has the reported result as a row under
  -- the step's id (and no row under the escaped spelling where that id is the unescaped one).
  -- Whatever function and timeout it has there, it returns that value, if the value comes back from
  -- its JSON, and leaves the world, the recorded steps and the reports as they are.
  pub run_replays :
      (fn fn' : Text → W → FnRun V A × W) (option option' : ℤ)
      → let id = (generate_root_step_id name f.exec).0 in
        let escaped =
          format_id f.exec.run_id (escape_step_id_part name) (counter name f.exec.step_counters) in
        let after = run_with_step_id formats json fn cancellation_err name option f in
        cancellation_err f.world ≡ none
        → cancellation_err g.world ≡ none
        → NotCompleted (lookup id f.exec.completed_steps)
        → after.0 ≡ returned a
        → after.1.exec.executed_steps ≡ f.exec.executed_steps ++ r ∷ []
        → DecodesTo json a
        → g.exec.run_id ≡ f.exec.run_id
        → counter name g.exec.step_counters ≡ counter name f.exec.step_counters
        → lookup id g.exec.completed_steps ≡ some (row_of r)
        → (id ≢ escaped → contains escaped g.exec.completed_steps ≡ false)
        → run_with_step_id formats json fn' cancellation_err name option' g
          ≡ (returned a, record g { exec = (generate_root_step_id name g.exec).1 })
  run_replays fn fn' option option' live_f live_g fresh value added decodes same_run same_count row
        unknown =
      let id = (generate_root_step_id name f.exec).0 in
      let records = run_records_once formats json fn cancellation_err name option f live_f fresh in
      let after = run_with_step_id formats json fn cancellation_err name option f in
      let (completed, output) = Recorded-value json id name f after a r records.1 value added in
      let same : (generate_root_step_id name g.exec).0 ≡ id =
        generate_stable name f.exec g.exec same_run same_count (rw (row, contains) refl) unknown in
      run_memoized formats json fn' cancellation_err name option' g (row_of r) live_g (rw same row)
        completed
      ∙ rw (memoized_output-row_of json _ name a r decodes output)
