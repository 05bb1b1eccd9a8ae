-- ===== src/Projection/Process.antt =====
-- `processManaged` of ironflow/projection_runner.go from the server's saved states to the states that
-- it saves.
use ironflow_go.Prelude.{
  All-map, ◌≡◌, refl, sym, ap, ◌∙◌, ◌≢◌, Option, none, some, List, [], ◌∷◌, ◌++◌, Text, Bool,
  text_eq, lookup, Bool-cases, All, ◌⊎◌, inl, inr,
}
use ironflow_go.Exec.Run.{done}
use ironflow_go.Projection.Errors.{ProjectionError}
use ironflow_go.Projection.Batch.{
  PollEvent, ProjectionEvent, Save, Reducer, partition_of, or_initial, found_or_initial,
  sort_by_seq,
}
use ironflow_go.Projection.Load.{Answer, Saved, PollResponse, start_states, process_managed}
use ironflow_go.Projection.Load.Starts.{flat, Answer-cases}
use ironflow_go.Projection.Load.Starting.{start_of, start_states-All}
use ironflow_go.Projection.Managed.{partition_fold}
use ironflow_go.Projection.Managed.Cursor.{last_state, last_saved_seq, last_event_seq}
use ironflow_go.Projection.Managed.Saved.{save_on, reduce_and_save_lem}

last_state-some :
    {O : Type 0} (pk : Text) (before : Option O) (saves : List (Save O))
    → (s : Option O) × (last_state pk (some before) saves ≡ some s)
last_state-some pk before [] = (before, refl)
last_state-some pk before (s ∷ saves) = elim (Bool-cases (text_eq s.pk pk)) [
  | inl same ↦ rw (same) (last_state-some pk s.state saves)
  | inr other ↦ rw (other) (last_state-some pk before saves)
]

module _ {O V : Type 0} (reducer : Reducer O V) where
  -- The state of a partition after saves: the last saved one, or the one it started from.
  abbrev pub after_saves : Option O → Option (Option O) → O
  after_saves start none = or_initial reducer start
  after_saves start (some s) = or_initial reducer s

  found_or_initial-flat :
      (o : Option (Option O)) → found_or_initial reducer o ≡ or_initial reducer (flat o)
  found_or_initial-flat none = refl
  found_or_initial-flat (some s) = refl

  found_or_initial-last_state :
      (pk : Text) (before : Option (Option O)) (saves : List (Save O))
      → found_or_initial reducer (last_state pk before saves)
        ≡ after_saves (flat before) (last_state pk none saves)
  found_or_initial-last_state pk before [] = found_or_initial-flat before
  found_or_initial-last_state pk before (s ∷ saves) = elim (Bool-cases (text_eq s.pk pk)) [
    | inl same ↦ let (t, is_t) = last_state-some pk s.state saves in rw (same) (rw (is_t) refl)
    | inr other ↦ rw (other) (found_or_initial-last_state pk before saves)
  ]

  module _ (get_projection : Text → Answer (Saved O)) (quoted : Text → Text) where
    module _ (lost : List (Save O) → Bool)
        (answer : Save O → List (Save O) → Option ProjectionError) where
      -- The events split into those handled and those left, of which there are none without an error.
      -- For each event of the batch, what the last save of its partition holds, or where there is none
      -- the state that it started from, is the reducer over the partition's handled events from there.
      abbrev pub Folded :
          PollResponse O V → List (Save O) → Option ProjectionError → List (Save O) → Type 0
      Folded resp log error log' =
          (handled : List (PollEvent O V)) × (left : List (PollEvent O V)) × (saves : List (Save O))
          × (sort_by_seq resp.events ≡ handled ++ left)
          × ((left ≡ []) ⊎ ((e : ProjectionError) × (error ≡ some e)))
          × (log' ≡ log ++ saves)
          × (last_saved_seq saves ≡ last_event_seq handled)
          × All
              (λ e.
                partition_fold reducer (partition_of e)
                  (or_initial reducer (start_of reducer get_projection resp (partition_of e)))
                  handled
                ≡ some (
                    after_saves (start_of reducer get_projection resp (partition_of e))
                      (last_state (partition_of e) none saves)))
              resp.events

      abbrev pub Processed :
          PollResponse O V → List (Save O) → Option ProjectionError × List (Save O) → Type 0
      Processed resp log result =
          ((e : ProjectionError) × (result.0 ≡ some e) × (result.1 ≡ log))
          ⊎ Folded resp log result.0 result.1

      -- A managed batch, whatever the server answers and whenever the lease is lost, where the handler
      -- never returns nil: either there is an error and nothing is saved, or the events in the order
      -- of their sequence numbers split into those handled and those left, of which there are none
      -- without an error; the last save has the sequence number of the last event handled; and for the
      -- partition of each event of the batch, the state of its last save, or where it has none the
      -- state it started from, is the reducer folded over that partition's handled events alone, from
      -- the state that the server had saved or else the initial one.
      pub process_managed_lem :
          (never_nil : (s : O) (e : ProjectionEvent O V) → reducer.handler s e ≢ done none)
          (resp : PollResponse O V) (log : List (Save O))
          → Processed resp log
              (process_managed reducer get_projection quoted lost (save_on answer) resp log)
      unfolding process_managed
      process_managed_lem never_nil resp log =
          elim (Answer-cases (start_states reducer get_projection quoted resp)) [
            | inl (e, bad) ↦ rw (bad, process_managed) (inl (e, refl, refl))
            | inr (states, starts) ↦
                let (handled, left, saves, split, ends, logged, cursor, folds, lasts) =
                  reduce_and_save_lem reducer lost answer quoted never_nil resp.events states log in
                let from : (pk : Text)
                    → flat (lookup pk states) ≡ start_of reducer get_projection resp pk
                    → partition_fold reducer pk
                        (or_initial reducer (start_of reducer get_projection resp pk)) handled
                      ≡ some (
                          after_saves (start_of reducer get_projection resp pk)
                            (last_state pk none saves)) =
                  λ pk at.
                    ap (λ o. partition_fold reducer pk (or_initial reducer o) handled) (sym at)
                    ∙ ap (λ s. partition_fold reducer pk s handled)
                        (sym (found_or_initial-flat (lookup pk states)))
                    ∙ folds pk
                    ∙ ap (λ o. some (found_or_initial reducer o)) (lasts pk)
                    ∙ ap some (found_or_initial-last_state pk (lookup pk states) saves)
                    ∙ ap (λ o. some (after_saves o (last_state pk none saves))) at in
                rw (starts, process_managed)
                  (inr (
                    handled,
                    left,
                    saves,
                    split,
                    ends,
                    logged,
                    cursor,
                    All-map (λ e at. from (partition_of e) at) resp.events
                        (start_states-All reducer get_projection quoted resp states starts),
                  ))
          ]
