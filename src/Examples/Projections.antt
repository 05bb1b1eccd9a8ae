-- ===== src/Examples/Projections.antt =====
-- A projection that adds up sequence numbers, two partitions of events, and a runner's requests.
use ironflow_go.Prelude.{
  ◌++◌, ℕ, ◌+◌, ◌≡◌, refl, ◌≢◌, Option, none, some, List, [], ◌∷◌, Text, codes, Bool, true, false,
  ◌==◌, ◌*◌, ◌^◌, arith,
}
use ironflow_go.Exec.Run.{Try, done}
use ironflow_go.Projection.Errors.{ProjectionError, other_error, lease_lost, as_sentinel}
use ironflow_go.Projection.Batch.{
  PollEvent, ProjectionEvent, Save, Reducer, sort_by_seq, insert_by_seq, reduce_and_save,
  process_runs, runs_of, reduce_run, save_of, clone_state, to_projection_event,
}
use ironflow_go.Projection.Load.{
  partitions_of, has_partition, Answer, answered, Saved, PollResponse, no_state, process_managed,
  start_states, load_partition_states, load_one, non_object_state,
}
use ironflow_go.Projection.Process.{Processed, process_managed_lem}
use ironflow_go.Projection.Managed.Saved.{save_on}
use ironflow_go.Projection.External.{process_external}
use ironflow_go.Projection.External.Acked.{Act, Acked, log_handler, log_ack, process_external_lem}
use ironflow_go.Projection.Runner.{
  Runner, seeking, polling, Happening, granted, held_by_other, run_steps, reconnect_delay,
  reconnect_base, reconnect_max, min_of,
}
use ironflow_go.Projection.Runner.Stops.{is_finished, stopped_now, run_steps-Ends}
use ironflow_go.Projection.Runner.Lease.{Follows, run_steps-Follows}
use ironflow_go.Projection.Runner.Backoff.{reconnect_delay_lem}
use ironflow_go.Projection.Stream.{Input, frame, heartbeat, flush_due, stop_asked, read_stream}
use ironflow_go.Projection.Stream.Batches.{Gathers, frames, logged, begin_reading, read_stream_lem}
use ironflow_go.Prelude.{lookup, insert, text_eq}

abbrev event : ℕ → Option Text → PollEvent ℕ ℕ
event n partition = record {
  id = n ∷ [];
  name = codes "added";
  seq = n;
  timestamp = codes "t";
  partition = partition;
  object = some n;
  value = none;
}

abbrev batch : List (PollEvent ℕ ℕ)
batch = event 3 (some (codes "a")) ∷ event 1 none ∷ event 2 (some (codes "a")) ∷ []

abbrev adds : ℕ → ProjectionEvent ℕ ℕ → Try (Option ℕ)
adds s e = done (some (s + e.seq))

abbrev adding : Reducer ℕ ℕ
adding = record {
  handler = adds;
  initial = some 100;
  is_empty = λ o. o == 0;
  empty = 0;
  json_copy = λ o. o;
  as_object = λ v. none;
}

abbrev saved_states : Text → Answer (Saved ℕ)
saved_states pk = answered (record { state = some 40; value = [] })

abbrev accepts_all : Save ℕ → List (Save ℕ) → Option ProjectionError
accepts_all s log = none

abbrev never_lost : List (Save ℕ) → Bool
never_lost log = false

abbrev polled : PollResponse ℕ ℕ
polled = record { events = batch; current = no_state }

adds_never_nil : (s : ℕ) (e : ProjectionEvent ℕ ℕ) → adds s e ≢ done none
adds_never_nil s e h = cc

abbrev run_polled : Option ProjectionError × List (Save ℕ)
run_polled = process_managed adding saved_states (λ t. t) never_lost (save_on accepts_all) polled []

-- The global event first, from the initial state, then both events of the other partition.
saves_polled : run_polled ≡ (
  none,
  record {
    pk = codes "__global__";
    state = some 101;
    last_event_id = 1 ∷ [];
    last_event_seq = 1;
    last_event_time = codes "t";
  }
      ∷ record {
        pk = codes "a";
        state = some 45;
        last_event_id = 3 ∷ [];
        last_event_seq = 3;
        last_event_time = codes "t";
      }
      ∷ [],
)
unfolding process_managed partitions_of has_partition start_states load_partition_states load_one
    non_object_state reduce_and_save process_runs runs_of sort_by_seq insert_by_seq reduce_run
    save_of clone_state to_projection_event lookup insert text_eq
saves_polled = refl

process_managed_lem_example :
    Processed adding saved_states (λ t. t) never_lost accepts_all polled [] run_polled
process_managed_lem_example =
    process_managed_lem adding saved_states (λ t. t) never_lost accepts_all adds_never_nil polled []

abbrev fails_on_two : ProjectionEvent ℕ ℕ → List Act → Option Text
fails_on_two e acts = elim (e.seq == 2) [ true ↦ some (codes "bad") | false ↦ none ]

process_external_lem_example :
    Acked
      (λ v. none)
      (λ acts. false)
      (λ acts. none)
      fails_on_two
      (λ id seq acts. none)
      batch
      []
      (process_external
        (λ acts. false)
        (log_ack (λ id seq acts. none))
        (λ v. none)
        (λ acts. none)
        (log_handler fails_on_two)
        batch
        [])
process_external_lem_example =
    process_external_lem (λ v. none) (λ acts. false) (λ acts. none) fails_on_two
      (λ id seq acts. none) batch []

abbrev meets : Happening
meets = record {
  stopped = false;
  stopped_after = false;
  stopped_last = false;
  lost = false;
  register_answer = none;
  acquire_answer = answered (granted 30000);
  received = true;
  progressed = true;
  read_error = none;
  poll_answer = answered 0;
}

-- A grant, a stream that ends, one under which the lease is lost, another runner, and `Stop`.
abbrev happenings : List Happening
happenings =
    meets
    ∷ meets
    ∷ record meets { read_error = some (as_sentinel lease_lost (other_error (codes "fenced"))) }
    ∷ record meets { acquire_answer = answered held_by_other }
    ∷ meets
    ∷ record meets { stopped_after = true }
    ∷ []

abbrev seeker : Runner
seeker = record { phase = seeking; polls = false }

run_steps-Follows_example : Follows false (run_steps happenings seeker)
run_steps-Follows_example = run_steps-Follows happenings seeker

abbrev poller : Runner
poller = record { phase = polling 1000; polls = true }

reconnect_delay_lem_example : reconnect_delay 7 ≡ min_of (reconnect_base * 2 ^ 6) reconnect_max
reconnect_delay_lem_example = reconnect_delay_lem 6

abbrev inputs : List (Input ℕ ℕ)
inputs =
    frame (event 1 none)
    ∷ heartbeat
    ∷ frame (event 2 none)
    ∷ frame (event 3 none)
    ∷ flush_due
    ∷ stop_asked false
    ∷ []

abbrev accepts_batch : List (PollEvent ℕ ℕ) → List (List (PollEvent ℕ ℕ)) → Option ProjectionError
accepts_batch events batches = none

read_stream_lem_example :
    Gathers accepts_batch 2
      (frames inputs)
      (read_stream (logged accepts_batch 2) 2 inputs begin_reading []).0
      (read_stream (logged accepts_batch 2) 2 inputs begin_reading []).1
read_stream_lem_example = read_stream_lem accepts_batch 2 inputs (omega arith)

run_steps-Ends_example :
    is_finished (run_steps (happenings ++ stopped_now meets ∷ []) seeker).0.phase ≡ true
run_steps-Ends_example = run_steps-Ends happenings meets seeker
