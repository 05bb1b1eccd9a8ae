-- ===== src/Projection/External.antt =====
-- An external projection handles each event of a batch and acknowledges the last: `processExternal` of
-- ironflow/projection_runner.go.
pub mod Acked
use ironflow_go.Prelude.{ℕ, Option, none, some, List, [], ◌∷◌, ◌++◌, Text, codes, Bool, true, false}
use ironflow_go.Projection.Errors.{ProjectionError, sentinel, wrapped_error, lease_lost}
use ironflow_go.Projection.Batch.{
  PollEvent, ProjectionEvent, to_projection_event, handler_error, last_of,
}

module _ {O V : Type 0} where
  abbrev pub last_id : List (PollEvent O V) → Text
  last_id [] = []
  last_id (e ∷ events) = (last_of e events).id

  abbrev pub last_seq : List (PollEvent O V) → ℕ
  last_seq [] = 0
  last_seq (e ∷ events) = (last_of e events).seq

module _ {O V W : Type 0} (as_object : V → Option O) (has_lost_lease : W → Bool)
    (work_error : W → Option ProjectionError)
    (handler : ProjectionEvent O V → W → Option Text × W) where
  -- The events of an external projection, each handled once the lease and the work are seen to be on.
  unfoldable pub handle_each : List (PollEvent O V) → W → Option ProjectionError × W
  unfolding to_projection_event
  handle_each [] w = (none, w)
  handle_each (e ∷ events) w = elim (has_lost_lease w) [
    | true ↦ (some (sentinel lease_lost), w)
    | false ↦ elim (work_error w) [
      | some stop ↦ (some stop, w)
      | none ↦
          let (answer, w') = handler (to_projection_event as_object e) w in
          elim answer [ some m ↦ (some (handler_error e m), w') | none ↦ handle_each events w' ]
    ]
  ]

module _ {O V W : Type 0} (has_lost_lease : W → Bool)
    (ack : Text → ℕ → W → Option ProjectionError × W) where
  -- After the handlers: the last event is acknowledged, while the lease is held.
  unfoldable pub ack_handled :
      List (PollEvent O V) → Option ProjectionError × W → Option ProjectionError × W
  ack_handled events (some e, w) = (some e, w)
  ack_handled events (none, w) = elim (has_lost_lease w) [
    | true ↦ (some (sentinel lease_lost), w)
    | false ↦
        let (answer, w') = ack (last_id events) (last_seq events) w in
        elim answer [
          | some e ↦ (some (wrapped_error (codes "ack events") e), w')
          | none ↦ (none, w')
        ]
  ]

  -- `processExternal`, as its error; there is none if it returns the number of events.
  unfoldable pub process_external :
      (as_object : V → Option O)
      → (work_error : W → Option ProjectionError)
      → (handler : ProjectionEvent O V → W → Option Text × W) → List (PollEvent O V)
      → W
      → Option ProjectionError × W
  unfolding handle_each ack_handled
  process_external as_object work_error handler events w =
      ack_handled events (handle_each as_object has_lost_lease work_error handler events w)
