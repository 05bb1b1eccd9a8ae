-- ===== src/Projection/Managed/Cursor.antt =====
-- What the saves of `processManaged` of ironflow/projection_runner.go show: the cursor of the last one,
-- and the last state of each partition.
use ironflow_go.Prelude.{
  ℕ, ◌≡◌, refl, sym, ap, ◌∙◌, Option, none, some, List, [], ◌∷◌, ◌++◌, Text, lookup, lookup-insert,
  text_eq, if◌then◌else◌,
}
use mathlib.Core.List.{append_assoc, append-nil}
use ironflow_go.Projection.Batch.{PollEvent, PartitionBatch, Save, Reducer, save_of, last_of}
use ironflow_go.Projection.Managed.{Saves, no_saves, run_saved, events_of}

-- The last event, by its sequence number, of a list that has one.
abbrev pub last_event_seq : {O V : Type 0} → List (PollEvent O V) → Option ℕ
last_event_seq [] = none
last_event_seq (e ∷ events) = some (last_of e events).seq

abbrev pub last_saved_seq : {O : Type 0} → List (Save O) → Option ℕ
last_saved_seq [] = none
last_saved_seq (s ∷ []) = some s.last_event_seq
last_saved_seq (s ∷ t ∷ saves) = last_saved_seq (t ∷ saves)

-- The state that the last save of a partition holds, or else the one before the saves.
abbrev pub last_state : {O : Type 0} → Text → Option (Option O) → List (Save O) → Option (Option O)
last_state pk before [] = before
last_state pk before (s ∷ saves) =
    last_state pk (if text_eq s.pk pk then some s.state else before) saves

module _ {O V : Type 0} where
  last_of-append :
      (e f : PollEvent O V) (events others : List (PollEvent O V))
      → last_of e (events ++ f ∷ others) ≡ last_of f others
  last_of-append e f [] others = refl
  last_of-append e f (g ∷ events) others = last_of-append g f events others

  pub events_of-append :
      (runs others : List (PartitionBatch O V))
      → events_of (runs ++ others) ≡ events_of runs ++ events_of others
  events_of-append [] others = refl
  events_of-append (run ∷ runs) others =
      ap (λ l. run.first ∷ run.later ++ l) (events_of-append runs others)
      ∙ ap (λ l. run.first ∷ l) (sym (append_assoc run.later (events_of runs) (events_of others)))

module _ {O V : Type 0} (reducer : Reducer O V) where
  Saves-last_from :
      {states after : List (Text × Option O)} {runs : List (PartitionBatch O V)}
      {saves : List (Save O)} (e : PollEvent O V) (later : List (PollEvent O V)) (s : Save O)
      → s.last_event_seq ≡ (last_of e later).seq
      → Saves reducer states runs saves after
      → last_saved_seq (s ∷ saves) ≡ some (last_of e (later ++ events_of runs)).seq
  unfolding save_of
  Saves-last_from e later s same no_saves =
      ap some same ∙ ap (λ l. some (last_of e l).seq) (sym (append-nil later))
  Saves-last_from e later s same
        (run_saved {run = run} {runs = runs} {state = state} reduces saved) =
      Saves-last_from run.first run.later (save_of run (some state)) refl saved
      ∙ ap (λ f. some f.seq) (sym (last_of-append e run.first later (run.later ++ events_of runs)))

  pub Saves-last :
      {states after : List (Text × Option O)} {runs : List (PartitionBatch O V)}
      {saves : List (Save O)}
      → Saves reducer states runs saves after
      → last_saved_seq saves ≡ last_event_seq (events_of runs)
  unfolding save_of
  Saves-last no_saves = refl
  Saves-last (run_saved {run = run} {state = state} reduces saved) =
      Saves-last_from run.first run.later (save_of run (some state)) refl saved

  pub Saves-lookup :
      {states after : List (Text × Option O)} {runs : List (PartitionBatch O V)}
      {saves : List (Save O)} (pk : Text)
      → Saves reducer states runs saves after
      → lookup pk after ≡ last_state pk (lookup pk states) saves
  unfolding save_of
  Saves-lookup pk no_saves = refl
  Saves-lookup pk
        (run_saved {states = states} {run = run} {saves = saves} {state = s} reduces saved) =
      Saves-lookup pk saved
      ∙ ap (λ o. last_state pk o saves) (lookup-insert run.pk pk (some s) states)
