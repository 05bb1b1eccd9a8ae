-- ===== src/Projection/External/Acked.antt =====
-- The order in which `processExternal` of ironflow/projection_runner.go runs the handler and
-- acknowledges, wherever a handler fails, the lease is lost or the work is stopped.
use ironflow_go.Prelude.{
  ℕ, ◌≡◌, refl, sym, ap, ◌∙◌, Option, none, some, List, [], ◌∷◌, ◌++◌, map, Text, Bool, Bool-cases,
  Option-cases, ◌⊎◌, inl, inr,
}
use mathlib.Core.List.{append_assoc, append-nil}
use ironflow_go.Projection.Errors.{ProjectionError}
use ironflow_go.Projection.Batch.{PollEvent, ProjectionEvent, to_projection_event}
use ironflow_go.Projection.External.{handle_each, ack_handled, process_external, last_id, last_seq}

-- What the outside sees of a runner.
pub data Act : Type 0 where
  handler_ran : Text → Act
  ack_sent : Text → ℕ → Act

abbrev pub log_handler :
    {O V : Type 0}
    → (ProjectionEvent O V → List Act → Option Text)
    → ProjectionEvent O V
    → List Act
    → Option Text × List Act
log_handler fails e acts = (fails e acts, acts ++ handler_ran e.id ∷ [])

abbrev pub log_ack :
    (Text → ℕ → List Act → Option ProjectionError)
    → Text
    → ℕ
    → List Act
    → Option ProjectionError × List Act
log_ack refuses id seq acts = (refuses id seq acts, acts ++ ack_sent id seq ∷ [])

abbrev pub ran : {O V : Type 0} → PollEvent O V → Act
ran e = handler_ran e.id

module _ {O V : Type 0} (as_object : V → Option O) (lost : List Act → Bool)
    (stopped : List Act → Option ProjectionError)
    (fails : ProjectionEvent O V → List Act → Option Text)
    (refuses : Text → ℕ → List Act → Option ProjectionError) where
  -- The handler ran for some of the events in their order; for all where there is no error.
  record Handled (events : List (PollEvent O V)) (acts : List Act) (error : Option ProjectionError)
      (after : List Act) : Type 0 where
    handled : List (PollEvent O V)
    left : List (PollEvent O V)
    split : events ≡ handled ++ left
    acted : after ≡ acts ++ map ran handled
    complete : ((left ≡ []) × (error ≡ none)) ⊎ ((e : ProjectionError) × (error ≡ some e))

  abbrev each : List (PollEvent O V) → List Act → Option ProjectionError × List Act
  each = handle_each as_object lost stopped (log_handler fails)

  stopped_at :
      (events : List (PollEvent O V)) (acts : List Act) (e : ProjectionError)
      → Handled events acts (some e) acts
  stopped_at events acts e = record {
    handled = [];
    left = events;
    split = refl;
    acted = sym (append-nil acts);
    complete = inr (e, refl);
  }

  handle_each-Handled :
      (events : List (PollEvent O V)) (acts : List Act)
      → Handled events acts (each events acts).0 (each events acts).1
  unfolding handle_each
  handle_each-Handled [] acts = record {
    handled = [];
    left = [];
    split = refl;
    acted = sym (append-nil acts);
    complete = inl (refl, refl);
  }
  handle_each-Handled (e ∷ events) acts = elim (Bool-cases (lost acts)) [
    | inl gone ↦ rw (gone, handle_each) (stopped_at (e ∷ events) acts _)
    | inr held ↦ elim (Option-cases (stopped acts)) [
      | inr (stop, over) ↦ rw (held, over, handle_each) (stopped_at (e ∷ events) acts _)
      | inl on ↦ elim (Option-cases (fails (to_projection_event as_object e) acts)) [
        | inr (m, failing) ↦
            rw (held, on, failing, handle_each)
              (record {
                handled = e ∷ [];
                left = events;
                split = refl;
                acted = refl;
                complete = inr (_, refl);
              })
        | inl fine ↦
            let rest = handle_each-Handled events (acts ++ ran e ∷ []) in
            rw (held, on, fine, handle_each)
              (record {
                handled = e ∷ rest.handled;
                left = rest.left;
                split = ap (λ l. e ∷ l) rest.split;
                acted = rest.acted ∙ append_assoc acts (ran e ∷ []) (map ran rest.handled);
                complete = rest.complete;
              })
      ]
    ]
  ]

  abbrev pub Acked : List (PollEvent O V) → List Act → Option ProjectionError × List Act → Type 0
  Acked events acts result =
      ((result.1 ≡ acts ++ map ran events ++ ack_sent (last_id events) (last_seq events) ∷ [])
        × ((result.0 ≡ none)
            ⊎ ((e : ProjectionError) × (refuses (last_id events) (last_seq events)
                    (acts ++ map ran events)
                  ≡ some e))))
      ⊎ ((handled : List (PollEvent O V)) × (left : List (PollEvent O V)) × (e : ProjectionError)
          × (events ≡ handled ++ left)
          × (result.1 ≡ acts ++ map ran handled)
          × (result.0 ≡ some e))

  ack_handled-Acked :
      (events : List (PollEvent O V)) (acts : List Act) (result : Option ProjectionError × List Act)
      → Handled events acts result.0 result.1
      → Acked events acts (ack_handled lost (log_ack refuses) events result)
  unfolding ack_handled
  ack_handled-Acked events acts (some e, after) p =
      inr (p.handled, p.left, e, p.split, p.acted, refl)
  ack_handled-Acked events acts (none, after) p = elim (Bool-cases (lost after)) [
    | inl gone ↦ rw (gone, ack_handled) (inr (p.handled, p.left, _, p.split, p.acted, refl))
    | inr held ↦ elim p.complete [
      | inr (e, failing) ↦ absurd cc
      | inl (all, fine) ↦
          let whole : p.handled ≡ events =
            sym (append-nil p.handled) ∙ ap (λ l. p.handled ++ l) (sym all) ∙ sym p.split in
          let there = p.acted ∙ ap (λ l. acts ++ map ran l) whole in
          elim (Option-cases (refuses (last_id events) (last_seq events) after)) [
            | inl accepts ↦
                rw (held, accepts, ack_handled)
                  (inl (
                    ap (λ l. l ++ ack_sent (last_id events) (last_seq events) ∷ []) there,
                    inl refl,
                  ))
            | inr (e, refusing) ↦
                rw (held, refusing, ack_handled)
                  (inl (
                    ap (λ l. l ++ ack_sent (last_id events) (last_seq events) ∷ []) there,
                    inr (e, ap (refuses (last_id events) (last_seq events)) (sym there) ∙ refusing),
                  ))
          ]
    ]
  ]

  -- An external batch, wherever a handler fails, the lease is lost or the work is stopped: either the
  -- handler ran for each event in its order, and then the last event was acknowledged, once, and there
  -- is no error unless that was refused; or it ran for some events from the first on, none was
  -- acknowledged, and there is an error.
  pub process_external_lem :
      (events : List (PollEvent O V)) (acts : List Act)
      → Acked events acts (
          process_external lost (log_ack refuses) as_object stopped (log_handler fails) events acts)
  unfolding process_external
  process_external_lem events acts =
      ack_handled-Acked events acts (each events acts) (handle_each-Handled events acts)
