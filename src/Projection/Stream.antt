-- ===== src/Projection/Stream.antt =====
-- `readStream` of ironflow/projection_runner.go: the frames of a stream, gathered into batches. What
-- its `select` takes is a list of inputs.
pub mod Batches
use ironflow_go.Prelude.{
  ℕ, ◌+◌, Option, none, some, List, [], ◌∷◌, ◌++◌, Bool, true, false, ◌||◌, ltb, if◌then◌else◌,
  length,
}
use ironflow_go.Projection.Errors.{ProjectionError, err_is, sentinel, lease_lost}
use ironflow_go.Projection.Batch.{PollEvent}

-- What the loop meets next: a frame with an event, one without, the stream's end, the flush timer, a
-- lost lease, or `Stop`, with whether the lease is lost then too.
pub data Input (O V : Type 0) : Type 0 where
  frame : PollEvent O V → Input O V
  heartbeat : Input O V
  stream_ended : Option ProjectionError → Input O V
  flush_due : Input O V
  lost_lease : Input O V
  stop_asked : (is_lost : Bool) → Input O V

-- The loop's variables; `armed` is whether a flush timer runs.
pub record Reading (O V : Type 0) : Type 0 where
  pub pending : List (PollEvent O V)
  pub armed : Bool
  pub received : Bool
  pub progressed : Bool

-- What the loop goes on with, or what it returns, `progressed` and the error.
pub data Read (O V : Type 0) : Type 0 where
  reads_on : Reading O V → Read O V
  read_ends : Bool → Option ProjectionError → Read O V

-- `len(batch) > 0`
abbrev pub has_events : {A : Type 0} → List A → Bool
has_events [] = false
has_events (x ∷ xs) = true

abbrev pub is_lease_lost : Option ProjectionError → Bool
is_lease_lost none = false
is_lease_lost (some e) = err_is lease_lost e

-- `BatchSize`, or 100 where it is 0
abbrev pub batch_size_or_default : ℕ → ℕ
batch_size_or_default n = elim (ltb 0 n) [ true ↦ n | false ↦ 100 ]

-- The loop goes on unless the iteration returned.
abbrev pub unless_ended :
    {O V W : Type 0} → (Reading O V → W → Read O V × W) → Read O V × W → Read O V × W
unless_ended rest (reads_on s, w) = rest s w
unless_ended rest (read_ends progressed error, w) = (read_ends progressed error, w)

module _ {O V W : Type 0}
    (process_batch : List (PollEvent O V) → W → Option ProjectionError × W) where
  -- The end of an iteration: the pending events are processed.
  unfoldable pub flush_batch : Reading O V → W → Read O V × W
  flush_batch s w =
      let (error, w') = process_batch s.pending w in
      elim error [
        | some e ↦ (read_ends s.progressed (some e), w')
        | none ↦ (
          reads_on (record s {
            pending = [];
            armed = false;
            progressed = s.progressed || has_events s.pending;
          }),
          w',
        )
      ]

  -- The events already received are processed before a stream's error is told.
  unfoldable pub end_stream : Option ProjectionError → Reading O V → W → Read O V × W
  end_stream stream_error s w =
      let (error, w') = process_batch s.pending w in
      elim error [
        | some e ↦ (read_ends s.progressed (some e), w')
        | none ↦ (read_ends (s.progressed || has_events s.pending) stream_error, w')
      ]

  unfoldable pub read_input : (batch_size : ℕ) → Input O V → Reading O V → W → Read O V × W
  unfolding flush_batch end_stream
  read_input batch_size (frame e) s w =
      let s' = record s { pending = s.pending ++ e ∷ []; received = true } in
      if ltb (length s'.pending) batch_size
      then (reads_on (record s' { armed = true }), w)
      else flush_batch s' w
  read_input batch_size heartbeat s w = (reads_on (record s { received = true }), w)
  read_input batch_size (stream_ended stream_error) s w =
      if is_lease_lost stream_error
      then (read_ends s.progressed stream_error, w)
      else end_stream stream_error s w
  read_input batch_size flush_due s w = elim s.armed [
    | true ↦ flush_batch s w
    | false ↦ (reads_on s, w)
  ]
  read_input batch_size lost_lease s w = (read_ends s.progressed (some (sentinel lease_lost)), w)
  read_input batch_size (stop_asked true) s w =
      (read_ends s.progressed (some (sentinel lease_lost)), w)
  read_input batch_size (stop_asked false) s w =
      let (error, w') = process_batch s.pending w in (read_ends s.progressed error, w')

  unfoldable pub read_stream : (batch_size : ℕ) → List (Input O V) → Reading O V → W → Read O V × W
  unfolding read_input
  read_stream batch_size [] s w = (reads_on s, w)
  read_stream batch_size (input ∷ inputs) s w =
      let rest = read_stream batch_size inputs in
      unless_ended rest (read_input batch_size input s w)
