-- ===== src/Projection/Managed.antt =====
-- What a managed projection saves is the fold of its reducer over each partition's events, and the
-- cursor that it saves is that of the last event reduced.
pub mod Cursor
pub mod Saved
use ironflow_go.Prelude.{
  ℕ, ◌≡◌, refl, sym, ap, ◌∙◌, ◌≢◌, subst, Option, none, some, List, [], ◌∷◌, ◌++◌, Text, Bool, true,
  false, text_eq, text_eq→eq, text_eq_refl, lookup, insert, lookup-insert, Bool-cases, Option-cases,
  All, ◌⊎◌, inl, inr, if◌then◌else◌,
}
use mathlib.Core.List.{append_assoc, append-nil}
use ironflow_go.Exec.Run.{Try, done, failed}
use ironflow_go.Exec.Suspend.Events.{Try-cases}
use ironflow_go.Projection.Errors.{ProjectionError, sentinel, wrapped_error, lease_lost}
use ironflow_go.Projection.Batch.{
  PollEvent, ProjectionEvent, PartitionBatch, Save, Reducer, Reduced, reduced, handler_failed,
  partition_of, to_projection_event, handler_error, clone_state, reduce_run, found_or_initial,
  state_for, process_runs, reduce_and_save, runs_of, join_run, sort_by_seq, save_of, last_of,
}

module _ {O V : Type 0} where
  -- The events of runs, one after the other.
  abbrev pub events_of : List (PartitionBatch O V) → List (PollEvent O V)
  events_of [] = []
  events_of (run ∷ runs) = run.first ∷ run.later ++ events_of runs

  abbrev pub In : Text → PollEvent O V → Type 0
  In pk e = partition_of e ≡ pk

  abbrev pub IsRun : PartitionBatch O V → Type 0
  IsRun run = In run.pk run.first × All (In run.pk) run.later

  events_of-join_run :
      (e : PollEvent O V) (runs : List (PartitionBatch O V))
      → events_of (join_run e runs) ≡ e ∷ events_of runs
  events_of-join_run e [] = refl
  events_of-join_run e (run ∷ runs) = elim (Bool-cases (text_eq (partition_of e) run.pk)) [
    | inl same ↦ rw (same) refl
    | inr other ↦ rw (other) refl
  ]

  pub events_of-runs_of : (events : List (PollEvent O V)) → events_of (runs_of events) ≡ events
  unfolding runs_of
  events_of-runs_of [] = refl
  events_of-runs_of (e ∷ events) =
      events_of-join_run e (runs_of events) ∙ ap (λ l. e ∷ l) (events_of-runs_of events)

  join_run-IsRun :
      (e : PollEvent O V) (runs : List (PartitionBatch O V))
      → All IsRun runs
      → All IsRun (join_run e runs)
  join_run-IsRun e [] all = ((refl, tt), tt)
  join_run-IsRun e (run ∷ runs) (ok, all) = elim (Bool-cases (text_eq (partition_of e) run.pk)) [
    | inl same ↦ rw (same) ((text_eq→eq _ _ same, ok), all)
    | inr other ↦ rw (other) ((refl, tt), (ok, all))
  ]

  pub runs_of-IsRun : (events : List (PollEvent O V)) → All IsRun (runs_of events)
  unfolding runs_of
  runs_of-IsRun [] = tt
  runs_of-IsRun (e ∷ events) = join_run-IsRun e (runs_of events) (runs_of-IsRun events)

module _ {O V : Type 0} (reducer : Reducer O V) where
  abbrev pub reduce_event : O → PollEvent O V → Option O
  reduce_event s e =
      elim (reducer.handler (clone_state reducer (some s))
        (to_projection_event reducer.as_object e)) [ failed m ↦ none | done next ↦ next ]

  -- The reducer over the events of one partition, wherever they stand in the batch.
  unfoldable pub partition_fold : Text → O → List (PollEvent O V) → Option O
  partition_fold pk s [] = some s
  partition_fold pk s (e ∷ events) = elim (text_eq (partition_of e) pk) [
    | false ↦ partition_fold pk s events
    | true ↦ elim (reduce_event s e) [ none ↦ none | some next ↦ partition_fold pk next events ]
  ]

  partition_fold-append :
      (pk : Text) (s t : O) (events others : List (PollEvent O V))
      → partition_fold pk s events ≡ some t
      → partition_fold pk s (events ++ others) ≡ partition_fold pk t others
  unfolding partition_fold
  partition_fold-append pk s t [] others ends =
      ap (λ o. elim o [ none ↦ none | some u ↦ partition_fold pk u others ]) ends
  partition_fold-append pk s t (e ∷ events) others ends =
      elim (Bool-cases (text_eq (partition_of e) pk)) [
        | inr other ↦
            rw (other, partition_fold)
              (partition_fold-append pk s t events others (rw (other, partition_fold) at ends))
        | inl same ↦ elim (Option-cases (reduce_event s e)) [
          | inl nil ↦ cc (rw (same, nil, partition_fold) at ends)
          | inr (next, to) ↦
              rw (same, to, partition_fold)
                (partition_fold-append pk next t events others
                  (rw (same, to, partition_fold) at ends))
        ]
      ]

  partition_fold-other :
      (pk pj : Text) (s : O) (events : List (PollEvent O V))
      → All (In pj) events
      → text_eq pj pk ≡ false
      → partition_fold pk s events ≡ some s
  unfolding partition_fold
  partition_fold-other pk pj s [] all ne = refl
  partition_fold-other pk pj s (e ∷ events) (here, all) ne =
      let no : text_eq (partition_of e) pk ≡ false = ap (λ p. text_eq p pk) here ∙ ne in
      rw (no, partition_fold) (partition_fold-other pk pj s events all ne)

  reduce_run-partition_fold :
      (never_nil : (s : O) (e : ProjectionEvent O V) → reducer.handler s e ≢ done none) (pk : Text)
      (s : O) (r : Option O) (events : List (PollEvent O V))
      → All (In pk) events
      → reduce_run reducer events (some s) ≡ reduced r
      → partition_fold pk s events ≡ r
  unfolding partition_fold reduce_run
  reduce_run-partition_fold never_nil pk s r [] all ends = cc
  reduce_run-partition_fold never_nil pk s r (e ∷ events) (here, all) ends =
      elim (Try-cases (
        reducer.handler (clone_state reducer (some s)) (to_projection_event reducer.as_object e))) [
          | inl (m, fails) ↦ cc (rw (fails, reduce_run) at ends)
          | inr (none, nil) ↦ absurd (never_nil _ _ nil)
          | inr (some next, to) ↦
              let yes : text_eq (partition_of e) pk ≡ true =
                ap (λ p. text_eq p pk) here ∙ text_eq_refl pk in
              rw (yes, to, partition_fold)
                (reduce_run-partition_fold never_nil pk next r events all
                  (rw (to, reduce_run) at ends))
        ]

  -- Each run reduced from its partition's state, saved, and kept.
  pub data Saves
      : List (Text × Option O)
        → List (PartitionBatch O V)
        → List (Save O)
        → List (Text × Option O)
        → Type 0 where
    no_saves : {states : List (Text × Option O)} → Saves states [] [] states
    run_saved :
        {states after : List (Text × Option O)} {run : PartitionBatch O V}
        {runs : List (PartitionBatch O V)} {saves : List (Save O)} {state : O}
        → reduce_run reducer (run.first ∷ run.later) (some (state_for reducer states run.pk))
          ≡ reduced (some state)
        → Saves (insert run.pk (some state) states) runs saves after
        → Saves states (run ∷ runs) (save_of run (some state) ∷ saves) after

  found_or_initial-if :
      (b : Bool) (s : O) (o : Option (Option O))
      → found_or_initial reducer (if b then some (some s) else o)
        ≡ (if b then s else found_or_initial reducer o)
  found_or_initial-if true s o = refl
  found_or_initial-if false s o = refl

  state_for-insert :
      (pk pj : Text) (s : O) (states : List (Text × Option O))
      → state_for reducer (insert pk (some s) states) pj
        ≡ (if text_eq pk pj then s else state_for reducer states pj)
  state_for-insert pk pj s states =
      ap (found_or_initial reducer) (lookup-insert pk pj (some s) states)
      ∙ found_or_initial-if (text_eq pk pj) s (lookup pj states)

  pub Saves-partition_fold :
      (never_nil : (s : O) (e : ProjectionEvent O V) → reducer.handler s e ≢ done none)
      {states after : List (Text × Option O)} {runs : List (PartitionBatch O V)}
      {saves : List (Save O)}
      → Saves states runs saves after
      → All IsRun runs
      → (pk : Text)
      → partition_fold pk (state_for reducer states pk) (events_of runs)
        ≡ some (state_for reducer after pk)
  unfolding partition_fold
  Saves-partition_fold never_nil no_saves all pk = refl
  Saves-partition_fold never_nil
        (run_saved {states = states} {run = run} {runs = runs} {state = s} reduces saved)
        (is_run, all) pk =
      let reached =
        reduce_run-partition_fold never_nil run.pk _ (some s) (run.first ∷ run.later) is_run
          reduces in
      let rest = Saves-partition_fold never_nil saved all pk in
      let starts = state_for-insert run.pk pk s states in
      elim (Bool-cases (text_eq run.pk pk)) [
        | inl same ↦
            let pks : run.pk ≡ pk = text_eq→eq run.pk pk same in
            let reached' =
              subst
                (λ p.
                  partition_fold p (state_for reducer states p) (run.first ∷ run.later) ≡ some s)
                pks reached in
            partition_fold-append pk _ s (run.first ∷ run.later) (events_of runs) reached'
            ∙ ap (λ u. partition_fold pk u (events_of runs)) (sym (rw (same) at starts))
            ∙ rest
        | inr other ↦
            partition_fold-append pk _ _ (run.first ∷ run.later) (events_of runs)
              (partition_fold-other pk run.pk _ (run.first ∷ run.later) is_run other)
            ∙ ap (λ u. partition_fold pk u (events_of runs)) (sym (rw (other) at starts))
            ∙ rest
      ]
