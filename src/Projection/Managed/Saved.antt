-- ===== src/Projection/Managed/Saved.antt =====
-- The states that `processManaged` of ironflow/projection_runner.go saves and keeps, whatever the
-- server answers and whenever the lease is lost.
use ironflow_go.Prelude.{
  ◌≡◌, refl, sym, ap, ◌∙◌, ◌≢◌, subst, Option, none, some, List, [], ◌∷◌, ◌++◌, Text, Bool, insert,
  lookup, Bool-cases, Option-cases, All, ◌⊎◌, inl, inr,
}
use mathlib.Core.List.{append_assoc, append-nil}
use ironflow_go.Exec.Run.{done}
use ironflow_go.Exec.Suspend.Events.{Try-cases}
use ironflow_go.Projection.Errors.{ProjectionError}
use ironflow_go.Projection.Batch.{
  PollEvent, ProjectionEvent, PartitionBatch, Save, Reducer, Reduced, reduced, handler_failed,
  to_projection_event, clone_state, reduce_run, state_for, process_runs, reduce_and_save, runs_of,
  sort_by_seq, save_of,
}
use ironflow_go.Projection.Managed.{
  Saves, no_saves, run_saved, Saves-partition_fold, partition_fold, events_of, events_of-runs_of,
  IsRun, runs_of-IsRun,
}
use ironflow_go.Projection.Managed.Cursor.{
  last_event_seq, last_saved_seq, last_state, Saves-last, Saves-lookup, events_of-append,
}

-- A server that keeps the saves it accepts; `answer` tells which it refuses.
abbrev pub kept :
    {O : Type 0}
    → Option ProjectionError
    → Save O
    → List (Save O)
    → Option ProjectionError × List (Save O)
kept none s log = (none, log ++ s ∷ [])
kept (some e) s log = (some e, log)

abbrev pub save_on :
    {O : Type 0}
    → (Save O → List (Save O) → Option ProjectionError)
    → Save O
    → List (Save O)
    → Option ProjectionError × List (Save O)
save_on answer s log = kept (answer s log) s log

module _ {O V : Type 0} (reducer : Reducer O V) where
  Reduced-cases :
      (r : Reduced O)
      → ((e : ProjectionError) × (r ≡ handler_failed e)) ⊎ ((s : Option O) × (r ≡ reduced s))
  Reduced-cases (handler_failed e) = inl (e, refl)
  Reduced-cases (reduced s) = inr (s, refl)

  reduce_run-some :
      (never_nil : (s : O) (e : ProjectionEvent O V) → reducer.handler s e ≢ done none) (s : O)
      (r : Option O) (events : List (PollEvent O V))
      → reduce_run reducer events (some s) ≡ reduced r
      → (t : O) × (r ≡ some t)
  unfolding reduce_run
  reduce_run-some never_nil s r [] ends = (s, cc)
  reduce_run-some never_nil s r (e ∷ events) ends =
      elim (Try-cases (
        reducer.handler (clone_state reducer (some s)) (to_projection_event reducer.as_object e))) [
          | inl (m, fails) ↦ cc (rw (fails, reduce_run) at ends)
          | inr (none, nil) ↦ absurd (never_nil _ _ nil)
          | inr (some next, to) ↦
              reduce_run-some never_nil next r events (rw (to, reduce_run) at ends)
        ]

  module _ (lost : List (Save O) → Bool) (answer : Save O → List (Save O) → Option ProjectionError)
      (quoted : Text → Text) where
    -- Some runs are done, each was saved, and there is an error unless all are.
    record Progress (runs : List (PartitionBatch O V)) (states : List (Text × Option O))
        (log : List (Save O)) (error : Option ProjectionError) (after : List (Text × Option O))
        (log' : List (Save O)) : Type 0 where
      handled : List (PartitionBatch O V)
      left : List (PartitionBatch O V)
      saves : List (Save O)
      split : runs ≡ handled ++ left
      logged : log' ≡ log ++ saves
      saved : Saves reducer states handled saves after
      complete : (left ≡ []) ⊎ ((e : ProjectionError) × (error ≡ some e))

    none_done :
        (runs : List (PartitionBatch O V)) (states : List (Text × Option O)) (log : List (Save O))
        {next : List (Save O)} (e : ProjectionError)
        → next ≡ log
        → Progress runs states log (some e) states next
    none_done runs states log e next_is = record {
      handled = [];
      left = runs;
      saves = [];
      split = refl;
      logged = next_is ∙ sym (append-nil log);
      saved = no_saves;
      complete = inr (e, refl);
    }

    one_done :
        (run : PartitionBatch O V) (runs : List (PartitionBatch O V)) (t : O)
        (states : List (Text × Option O)) (log : List (Save O)) {error : Option ProjectionError}
        {after : List (Text × Option O)} {next log' : List (Save O)}
        → reduce_run reducer (run.first ∷ run.later) (some (state_for reducer states run.pk))
          ≡ reduced (some t)
        → next ≡ log ++ save_of run (some t) ∷ []
        → Progress runs (insert run.pk (some t) states) next error after log'
        → Progress (run ∷ runs) states log error after log'
    one_done run runs t states log reduces next_is p = record {
      handled = run ∷ p.handled;
      left = p.left;
      saves = save_of run (some t) ∷ p.saves;
      split = ap (λ l. run ∷ l) p.split;
      logged =
          p.logged
          ∙ ap (λ l. l ++ p.saves) next_is
          ∙ append_assoc log (save_of run (some t) ∷ []) p.saves;
      saved = run_saved reduces p.saved;
      complete = p.complete;
    }

    abbrev outcome :
        List (PartitionBatch O V)
        → List (Text × Option O)
        → List (Save O)
        → Option ProjectionError × List (Text × Option O) × List (Save O)
    outcome = process_runs reducer lost (save_on answer) quoted

    process_runs-Progress :
        (never_nil : (s : O) (e : ProjectionEvent O V) → reducer.handler s e ≢ done none)
        (runs : List (PartitionBatch O V)) (states : List (Text × Option O)) (log : List (Save O))
        → Progress runs states log
            (outcome runs states log).0
            (outcome runs states log).1
            (outcome runs states log).2
    unfolding process_runs
    process_runs-Progress never_nil [] states log = record {
      handled = [];
      left = [];
      saves = [];
      split = refl;
      logged = sym (append-nil log);
      saved = no_saves;
      complete = inl refl;
    }
    process_runs-Progress never_nil (run ∷ runs) states log =
        elim (Reduced-cases
          (reduce_run reducer (run.first ∷ run.later) (some (state_for reducer states run.pk)))) [
            | inl (e, fails) ↦ rw (fails, process_runs) (none_done (run ∷ runs) states log e refl)
            | inr (none, nil) ↦
                let (t, is_some) = reduce_run-some never_nil _ none (run.first ∷ run.later) nil in
                absurd cc
            | inr (some t, reduces) ↦ elim (Bool-cases (lost log)) [
              | inl gone ↦
                  rw (reduces, gone, process_runs) (none_done (run ∷ runs) states log _ refl)
              | inr held ↦ elim (Option-cases (answer (save_of run (some t)) log)) [
                | inr (e, refuses) ↦
                    rw (reduces, held, refuses, process_runs)
                      (none_done (run ∷ runs) states log _
                        (ap (λ a. (kept a (save_of run (some t)) log).1) refuses))
                | inl accepts ↦
                    let keeps : save_on answer (save_of run (some t)) log
                        ≡ (none, log ++ save_of run (some t) ∷ []) =
                      ap (λ a. kept a (save_of run (some t)) log) accepts in
                    rw (reduces, held, accepts, process_runs)
                      (one_done run runs t states log reduces (ap (λ p. p.1) keeps)
                        (process_runs-Progress never_nil runs _ _))
              ]
            ]
          ]

    All-handled :
        (handled left : List (PartitionBatch O V)) → All IsRun (handled ++ left) → All IsRun handled
    All-handled [] left all = tt
    All-handled (run ∷ handled) left (ok, all) = (ok, All-handled handled left all)

    -- A batch, taken in the order of its sequence numbers, splits into events that are handled and
    -- events that are left, and none is left where there is no error.
    pub reduce_and_save_lem :
        (never_nil : (s : O) (e : ProjectionEvent O V) → reducer.handler s e ≢ done none)
        (events : List (PollEvent O V)) (states : List (Text × Option O)) (log : List (Save O))
        → let (error, after, log') =
            reduce_and_save reducer lost (save_on answer) quoted events states log in
          (handled : List (PollEvent O V)) × (left : List (PollEvent O V)) × (saves : List (Save O))
          × (sort_by_seq events ≡ handled ++ left)
          × ((left ≡ []) ⊎ ((e : ProjectionError) × (error ≡ some e)))
          × (log' ≡ log ++ saves)
          × (last_saved_seq saves ≡ last_event_seq handled)
          × ((pk : Text)
              → partition_fold reducer pk (state_for reducer states pk) handled
                ≡ some (state_for reducer after pk))
          × ((pk : Text) → lookup pk after ≡ last_state pk (lookup pk states) saves)
    unfolding reduce_and_save
    reduce_and_save_lem never_nil events states log =
        let sorted = sort_by_seq events in
        let p = process_runs-Progress never_nil (runs_of sorted) states log in
        let all = All-handled p.handled p.left (subst (All IsRun) p.split (runs_of-IsRun sorted)) in
        (
          events_of p.handled,
          events_of p.left,
          p.saves,
          sym (events_of-runs_of sorted) ∙ ap events_of p.split ∙ events_of-append p.handled p.left,
          elim p.complete [
            | inl done_all ↦ inl (ap events_of done_all)
            | inr failed_by ↦ inr failed_by
          ],
          p.logged,
          Saves-last reducer p.saved,
          Saves-partition_fold reducer never_nil p.saved all,
          (λ pk. Saves-lookup reducer pk p.saved),
        )
