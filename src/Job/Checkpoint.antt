-- ===== src/Job/Checkpoint.antt =====
-- ironflow/job_executor.go: the checkpointer of a pull worker, which reports the executed steps from
-- time to time and leaves the rest to the final report. `ReportProgress` and the job's context are
-- parameters over a world of type `W`.
pub mod Delivered
use ironflow_go.Prelude.{ℕ, ◌+◌, Option, none, some, List, [], ◌∷◌, length, take, drop}
use ironflow_go.Errors.{Err}
use ironflow_go.Exec.{StepResult}
use ironflow_go.Job.Encode.{Encoder, encodable_steps}

abbrev pub max_checkpoint_steps : ℕ
max_checkpoint_steps = 500

-- The executed steps before `cursor` are reported; `base` is the position of the job's first step.
pub record StepCheckpointer : Type 0 where
  pub base : ℕ
  pub cursor : ℕ

-- `tail`: what the final report carries, and at which offset.
abbrev pub tail : {V : Type 0} → List (StepResult V) → StepCheckpointer → List (StepResult V) × ℕ
tail executed c = (drop c.cursor executed, c.base + c.cursor)

module _ {V W : Type 0} (encoder : Encoder V) (context_error : W → Option (Err V))
    (report_progress : List (StepResult V) → ℕ → W → Option (Err V) × W) where
  -- An acknowledged report moves the cursor.
  abbrev pub moved : Option (Err V) → ℕ → StepCheckpointer → StepCheckpointer
  moved none n c = record c { cursor = c.cursor + n }
  moved (some e) n c = c

  unfoldable pub send_chunk :
      List (StepResult V) → StepCheckpointer → W → Option (Err V) × StepCheckpointer × W
  send_chunk [] c w = (none, c, w)
  send_chunk (s ∷ steps) c w =
      let (answer, w') = report_progress (s ∷ steps) (c.base + c.cursor) w in
      (answer, moved answer (length (s ∷ steps)) c, w')

  unfoldable pub flush :
      List (StepResult V) → StepCheckpointer → W → Option (Err V) × StepCheckpointer × W
  flush executed c w = elim (context_error w) [
    | some e ↦ (some e, c, w)
    | none ↦
        send_chunk (encodable_steps encoder (take max_checkpoint_steps (drop c.cursor executed))).0
          c w
  ]
