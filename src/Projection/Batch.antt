-- ===== src/Projection/Batch.antt =====
-- A batch of events, and how a managed projection reduces and saves it: `processManaged` of
-- ironflow/projection_runner.go. Of an event, the fields that the runner itself reads; the entity, the
-- source and the other metadata are copied to the handler as they are.
use ironflow_go.Prelude.{
  ℕ, Option, none, some, List, [], ◌∷◌, ◌++◌, Text, codes, Bool, true, false, leb, if◌then◌else◌,
  text_eq, lookup, insert,
}
use ironflow_go.Exec.Run.{Try, done, failed}
use ironflow_go.Projection.Errors.{
  ProjectionError, other_error, sentinel, wrapped_error, lease_lost,
}

-- `partition` is the text that the metadata have under "__partition", if it is a text.
pub record PollEvent (O V : Type 0) : Type 0 where
  pub id : Text
  pub name : Text
  pub seq : ℕ
  pub timestamp : Text
  pub partition : Option Text
  pub object : Option O
  pub value : Option V

-- `ProjectionEvent`, as a handler sees it.
pub record ProjectionEvent (O V : Type 0) : Type 0 where
  pub id : Text
  pub name : Text
  pub seq : ℕ
  pub timestamp : Text
  pub object : Option O
  pub value : Option V

abbrev pub global_partition : Text
global_partition = codes "__global__"

abbrev pub or_global : Option Text → Text
or_global none = global_partition
or_global (some []) = global_partition
or_global (some (c ∷ p)) = c ∷ p

-- A run of consecutive events of one partition; it has at least one event.
pub record PartitionBatch (O V : Type 0) : Type 0 where
  pub pk : Text
  pub first : PollEvent O V
  pub later : List (PollEvent O V)

-- What `SaveProjectionState` is sent.
pub record Save (O : Type 0) : Type 0 where
  pub pk : Text
  pub state : Option O
  pub last_event_id : Text
  pub last_event_seq : ℕ
  pub last_event_time : Text

module _ {O V : Type 0} where
  -- `partitionOf`
  abbrev pub partition_of : PollEvent O V → Text
  partition_of e = or_global e.partition

  -- A stable sort by the sequence number.
  unfoldable pub insert_by_seq : PollEvent O V → List (PollEvent O V) → List (PollEvent O V)
  insert_by_seq e [] = e ∷ []
  insert_by_seq e (f ∷ events) =
      if leb e.seq f.seq then e ∷ f ∷ events else f ∷ insert_by_seq e events

  unfoldable pub sort_by_seq : List (PollEvent O V) → List (PollEvent O V)
  sort_by_seq [] = []
  sort_by_seq (e ∷ events) = insert_by_seq e (sort_by_seq events)

  -- An event joins the run that follows it, if that is of its partition.
  abbrev pub join_run : PollEvent O V → List (PartitionBatch O V) → List (PartitionBatch O V)
  join_run e [] = record { pk = partition_of e; first = e; later = [] } ∷ []
  join_run e (run ∷ runs) =
      if text_eq (partition_of e) run.pk
      then record { pk = run.pk; first = e; later = run.first ∷ run.later } ∷ runs
      else record { pk = partition_of e; first = e; later = [] } ∷ run ∷ runs

  unfoldable pub runs_of : List (PollEvent O V) → List (PartitionBatch O V)
  runs_of [] = []
  runs_of (e ∷ events) = join_run e (runs_of events)

  abbrev pub last_of : PollEvent O V → List (PollEvent O V) → PollEvent O V
  last_of e [] = e
  last_of e (f ∷ events) = last_of f events

  -- An object as the value is the data, and there is no other value.
  unfoldable pub to_projection_event : (V → Option O) → PollEvent O V → ProjectionEvent O V
  to_projection_event as_object e =
      let as_data : Option O = elim e.value [ none ↦ none | some v ↦ as_object v ] in
      record {
        id = e.id;
        name = e.name;
        seq = e.seq;
        timestamp = e.timestamp;
        object = elim as_data [ none ↦ e.object | some o ↦ some o ];
        value = elim as_data [ none ↦ e.value | some o ↦ none ];
      }

  abbrev pub handler_error : PollEvent O V → Text → ProjectionError
  handler_error e m =
      wrapped_error (codes "handler error on event " ++ e.id ++ codes ": " ++ m) (other_error m)

  unfoldable pub save_of : PartitionBatch O V → Option O → Save O
  save_of run state =
      let last = last_of run.first run.later in
      record {
        pk = run.pk;
        state = state;
        last_event_id = last.id;
        last_event_seq = last.seq;
        last_event_time = last.timestamp;
      }

-- What a handler that returns no error returns: a state, or nil.
pub data Reduced (O : Type 0) : Type 0 where
  reduced : Option O → Reduced O
  handler_failed : ProjectionError → Reduced O

-- A managed projection. The handler is a pure reducer; `json_copy` is a copy through JSON. `initial` is
-- what `InitialState` returns, where there is one and it is not nil.
pub record Reducer (O V : Type 0) : Type 0 where
  pub handler : O → ProjectionEvent O V → Try (Option O)
  pub initial : Option O
  pub is_empty : O → Bool
  pub empty : O
  pub json_copy : O → O
  pub as_object : V → Option O

module _ {O V : Type 0} (reducer : Reducer O V) where
  -- `cloneState`
  unfoldable pub clone_state : Option O → O
  clone_state none = reducer.empty
  clone_state (some o) = if reducer.is_empty o then reducer.empty else reducer.json_copy o

  unfoldable pub reduce_run : List (PollEvent O V) → Option O → Reduced O
  unfolding clone_state to_projection_event
  reduce_run [] state = reduced state
  reduce_run (e ∷ events) state =
      elim (reducer.handler (clone_state state) (to_projection_event reducer.as_object e)) [
        | failed m ↦ handler_failed (handler_error e m)
        | done new_state ↦ reduce_run events new_state
      ]

  abbrev pub or_initial : Option O → O
  or_initial (some o) = o
  or_initial none = elim reducer.initial [ none ↦ reducer.empty | some o ↦ o ]

  abbrev pub found_or_initial : Option (Option O) → O
  found_or_initial none = or_initial none
  found_or_initial (some s) = or_initial s

  -- `states[pk]`, with the initial state, or an empty one, in place of nil.
  abbrev pub state_for : List (Text × Option O) → Text → O
  state_for states pk = found_or_initial (lookup pk states)

  module _ {W : Type 0} (has_lost_lease : W → Bool)
      (save_state : Save O → W → Option ProjectionError × W) (quoted : Text → Text) where
    -- One run of a partition: reduce, look at the lease, save. After an error no later run is begun.
    unfoldable pub process_runs :
        List (PartitionBatch O V)
        → List (Text × Option O)
        → W
        → Option ProjectionError × List (Text × Option O) × W
    unfolding reduce_run save_of
    process_runs [] states w = (none, states, w)
    process_runs (run ∷ runs) states w =
        elim (reduce_run (run.first ∷ run.later) (some (state_for states run.pk))) [
          | handler_failed e ↦ (some e, states, w)
          | reduced state ↦ elim (has_lost_lease w) [
            | true ↦ (some (sentinel lease_lost), states, w)
            | false ↦
                let (answer, w') = save_state (save_of run state) w in
                elim answer [
                  | some e ↦ (
                    some (wrapped_error (codes "save state for partition " ++ quoted run.pk) e),
                    states,
                    w',
                  )
                  | none ↦ process_runs runs (insert run.pk state states) w'
                ]
          ]
        ]

    -- The batch in the order of its sequence numbers.
    unfoldable pub reduce_and_save :
        List (PollEvent O V)
        → List (Text × Option O)
        → W
        → Option ProjectionError × List (Text × Option O) × W
    unfolding process_runs runs_of sort_by_seq
    reduce_and_save events = process_runs (runs_of (sort_by_seq events))
