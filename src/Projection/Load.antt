-- ===== src/Projection/Load.antt =====
-- What a batch starts from: `loadPartitionStates`, `nonObjectState` and the two ways to
-- `processManaged` and `processExternal` of ironflow/projection_runner.go, `poll` and `processBatch`.
pub mod Starts
pub mod Starting
use ironflow_go.Prelude.{
  ℕ, Option, none, some, List, [], ◌∷◌, ◌++◌, map, Text, codes, Bool, true, false, ◌==◌, ◌||◌, not,
  text_eq, if◌then◌else◌, insert, length,
}
use ironflow_go.Exec.Run.{Try}
use ironflow_go.Projection.Errors.{
  ProjectionError, other_error, wrapped_error, both_errors, as_sentinel, batch_failed,
}
use ironflow_go.Projection.Batch.{
  PollEvent, ProjectionEvent, Reducer, Save, partition_of, global_partition, reduce_and_save,
}

-- What a request is answered with.
pub data Answer (A : Type 0) : Type 0 where
  answered : A → Answer A
  refused : ProjectionError → Answer A

-- A saved state: an object, or the JSON text of another value.
pub record Saved (O : Type 0) : Type 0 where
  pub state : Option O
  pub value : Text

pub record PollResponse (O V : Type 0) : Type 0 where
  pub events : List (PollEvent O V)
  pub current : Saved O

-- `nonObjectState`
unfoldable pub non_object_state : {O : Type 0} → Saved O → Option ProjectionError
non_object_state saved = elim saved.state [
  | some o ↦ none
  | none ↦
      if length saved.value == 0 || text_eq saved.value (codes "null")
      then none
      else some (other_error (codes "saved state is not a JSON object: " ++ saved.value))
]

-- `errors.Join`
abbrev pub join_errors : List ProjectionError → Option ProjectionError
join_errors [] = none
join_errors (e ∷ errs) = elim (join_errors errs) [ none ↦ some e | some f ↦ some (both_errors e f) ]

-- What a goroutine does under the lock.
abbrev pub keep_load :
    {O : Type 0}
    → (quoted : Text → Text) → Text
    → Answer (Option O)
    → List (Text × Option O) × List ProjectionError
    → List (Text × Option O) × List ProjectionError
keep_load quoted pk (refused e) (states, errs) =
    (states, wrapped_error (codes "load state for partition " ++ quoted pk) e ∷ errs)
keep_load quoted pk (answered none) (states, errs) = (states, errs)
keep_load quoted pk (answered (some o)) (states, errs) = (insert pk (some o) states, errs)

module _ {O : Type 0} (is_empty : O → Bool) where
  -- A saved {} is no state.
  abbrev pub object_of : Saved O → Option O
  object_of saved = elim saved.state [ none ↦ none | some o ↦ if is_empty o then none else some o ]

  -- The goroutine of one partition.
  unfoldable pub load_one : (get_projection : Text → Answer (Saved O)) → Text → Answer (Option O)
  unfolding non_object_state
  load_one get_projection pk = elim (get_projection pk) [
    | refused e ↦ refused e
    | answered saved ↦ elim (non_object_state saved) [
      | some e ↦ refused e
      | none ↦ answered (object_of saved)
    ]
  ]

  -- The loads in the order in which they took the lock; the keys are those of a Go map.
  unfoldable pub load_partition_states :
      (get_projection : Text → Answer (Saved O))
      → (quoted : Text → Text) → List Text
      → List (Text × Option O) × List ProjectionError
  unfolding load_one
  load_partition_states get_projection quoted [] = ([], [])
  load_partition_states get_projection quoted (pk ∷ keys) =
      let rest = load_partition_states get_projection quoted keys in
      elim (text_eq pk global_partition) [
        | true ↦ rest
        | false ↦ keep_load quoted pk (load_one get_projection pk) rest
      ]

abbrev pub with_current : {O : Type 0} → Option O → List (Text × Option O) → List (Text × Option O)
with_current none states = states
with_current (some o) states = insert global_partition (some o) states

unfoldable pub has_partition : Text → List Text → Bool
has_partition pk [] = false
has_partition pk (k ∷ keys) = text_eq k pk || has_partition pk keys

-- The keys of the Go map `partitions`, each once.
unfoldable pub partitions_of : {O V : Type 0} → List (PollEvent O V) → List Text
unfolding has_partition
partitions_of [] = []
partitions_of (e ∷ events) =
    let keys = partitions_of events in
    if has_partition (partition_of e) keys then keys else partition_of e ∷ keys

abbrev pub uses_global : {O V : Type 0} → List (PollEvent O V) → Bool
uses_global [] = false
uses_global (e ∷ events) = text_eq (partition_of e) global_partition || uses_global events

module _ {O V : Type 0} (reducer : Reducer O V) (get_projection : Text → Answer (Saved O))
    (quoted : Text → Text) where
  -- The saved states of the batch's partitions, or the error that stops it before its first save.
  unfoldable pub start_states : PollResponse O V → Answer (List (Text × Option O))
  unfolding load_partition_states non_object_state
  start_states resp =
      let global_error = if uses_global resp.events then non_object_state resp.current else none in
      elim global_error [
        | some e ↦ refused (wrapped_error (codes "load global state") e)
        | none ↦
            let (states, errs) =
              load_partition_states reducer.is_empty get_projection quoted
                (partitions_of resp.events) in
            elim (join_errors errs) [
              | some e ↦ refused e
              | none ↦ answered (with_current (object_of reducer.is_empty resp.current) states)
            ]
      ]

  -- `processManaged`, as its error; there is none if it returns the number of events.
  unfoldable pub process_managed :
      {W : Type 0} (has_lost_lease : W → Bool)
      (save_state : Save O → W → Option ProjectionError × W)
      → PollResponse O V
      → W
      → Option ProjectionError × W
  unfolding start_states reduce_and_save
  process_managed has_lost_lease save_state resp w = elim (start_states resp) [
    | refused e ↦ (some e, w)
    | answered states ↦
        let (error, after, w') =
          reduce_and_save reducer has_lost_lease save_state quoted resp.events states w in
        (error, w')
  ]

-- The two modes of a projection, as what they do with an answer of the server.
pub record Processing (O V W : Type 0) : Type 0 where
  pub is_managed : Bool
  pub managed : PollResponse O V → W → Option ProjectionError × W
  pub external : List (PollEvent O V) → W → Option ProjectionError × W

abbrev pub no_state : {O : Type 0} → Saved O
no_state = record { state = none; value = [] }

abbrev pub processed : {W : Type 0} → ℕ → Option ProjectionError × W → Answer ℕ × W
processed n (none, w) = (answered n, w)
processed n (some e, w) = (refused e, w)

abbrev pub batch_result : {W : Type 0} → Option ProjectionError × W → Option ProjectionError × W
batch_result (none, w) = (none, w)
batch_result (some e, w) = (some (as_sentinel batch_failed e), w)

module _ {O V W : Type 0} (processing : Processing O V W) where
  -- `poll`, of the server's answer.
  abbrev pub poll : Answer (PollResponse O V) → W → Answer ℕ × W
  poll (refused e) w = (refused e, w)
  poll (answered resp) w = elim resp.events [
    | [] ↦ (answered 0, w)
    | e ∷ events ↦ processed (length resp.events) (
        if processing.is_managed
        then processing.managed resp w
        else processing.external resp.events w)
  ]

  -- `processBatch`: a stream's frames carry no state, so that of the global partition is fetched.
  unfoldable pub process_batch :
      (get_global : Answer (Saved O)) → List (PollEvent O V) → W → Option ProjectionError × W
  process_batch get_global [] w = (none, w)
  process_batch get_global (e ∷ events) w = elim processing.is_managed [
    | false ↦ batch_result (processing.external (e ∷ events) w)
    | true ↦
        let current : Answer (Saved O) =
          if uses_global (e ∷ events) then get_global else answered no_state in
        elim current [
          | refused f ↦ batch_result (some (wrapped_error (codes "load global state") f), w)
          | answered saved ↦
              batch_result (processing.managed (record { events = e ∷ events; current = saved }) w)
        ]
  ]
