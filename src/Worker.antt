-- ===== src/Worker.antt =====
-- The pull worker of ironflow/worker.go: its states, the jobs that run, and what its loops decide.
-- Each event below is one atomic action of one of its goroutines: the loops of `Run` and `pollForJobs`,
-- the goroutine of a job, `Drain`, `Stop` and a heartbeat's answer. They may come in any order, also in
-- orders that the sequence of the code rules out.
pub mod Keys
pub mod Capacity
pub mod Closing
pub mod Reporter
pub mod Polling
use ironflow_go.Prelude.{
  ℕ, ◌+◌, ◌-◌, Option, none, some, List, [], ◌∷◌, Text, Bool, true, false, ◌==◌, ◌&&◌, ◌||◌, not,
  ltb, if◌then◌else◌, text_eq,
}

pub data WorkerState : Type 0 where
  idle : WorkerState
  connecting : WorkerState
  connected : WorkerState
  draining : WorkerState
  stopped : WorkerState

-- `storeStateUnlessStopped`
abbrev pub store_unless_stopped : (current next : WorkerState) → WorkerState
store_unless_stopped stopped next = stopped
store_unless_stopped idle next = next
store_unless_stopped connecting next = next
store_unless_stopped connected next = next
store_unless_stopped draining next = next

-- `storeStateUnlessDraining`
abbrev pub store_unless_draining : (current next : WorkerState) → WorkerState
store_unless_draining stopped next = stopped
store_unless_draining draining next = draining
store_unless_draining idle next = next
store_unless_draining connecting next = next
store_unless_draining connected next = next

abbrev pub is_connected : WorkerState → Bool
is_connected connected = true
is_connected idle = false
is_connected connecting = false
is_connected draining = false
is_connected stopped = false

-- No job is begun in these states.
abbrev pub is_closing : WorkerState → Bool
is_closing draining = true
is_closing stopped = true
is_closing idle = false
is_closing connecting = false
is_closing connected = false

pub record Assignment : Type 0 where
  pub job_id : Text
  pub execution_seq : ℕ
  pub lease_token : Text

-- An active job, under its key; `acknowledged` is whether its code may run.
pub record ActiveJob : Type 0 where
  pub job_id : Text
  pub execution_seq : ℕ
  pub acknowledged : Bool
  pub cancelled : Bool

-- `assigned` are the jobs of the last poll that the loop has not come to yet.
pub record Worker : Type 0 where
  pub state : WorkerState
  pub jobs : List ActiveJob
  pub job_count : ℕ
  pub assigned : List Assignment
  pub stop_closed : Bool

abbrev pub new_worker : Worker
new_worker = record { state = idle; jobs = []; job_count = 0; assigned = []; stop_closed = false }

-- The keys of active jobs, `activeJobKey`
abbrev pub same_key : Text → ℕ → ActiveJob → Bool
same_key id seq job = text_eq job.job_id id && job.execution_seq == seq

unfoldable pub is_active : Text → ℕ → List ActiveJob → Bool
is_active id seq [] = false
is_active id seq (job ∷ jobs) = same_key id seq job || is_active id seq jobs

abbrev pub is_legacy : Text → Bool
is_legacy [] = true
is_legacy (c ∷ token) = false

-- `processJob`, up to its goroutine.
unfoldable pub process_job : Assignment → Worker → Worker
unfolding is_active
process_job job w =
    if is_closing w.state
    then w
    else (if is_active job.job_id job.execution_seq w.jobs then w else record w {
      jobs =
          record {
            job_id = job.job_id;
            execution_seq = job.execution_seq;
            acknowledged = is_legacy job.lease_token;
            cancelled = false;
          }
          ∷ w.jobs;
      job_count = w.job_count + 1;
    })

-- `Stop`: the channel is closed and the jobs are cancelled once.
abbrev pub cancel_jobs : List ActiveJob → List ActiveJob
cancel_jobs [] = []
cancel_jobs (job ∷ jobs) = record job { cancelled = true } ∷ cancel_jobs jobs

unfoldable pub stop : Worker → Worker
stop w = record w {
  state = stopped;
  jobs = if w.stop_closed then w.jobs else cancel_jobs w.jobs;
  stop_closed = true;
}

-- The end of a job's goroutine.
unfoldable pub remove_job : Text → ℕ → List ActiveJob → List ActiveJob
remove_job id seq [] = []
remove_job id seq (job ∷ jobs) = if same_key id seq job then jobs else job ∷ remove_job id seq jobs

unfoldable pub acknowledge_job : Text → ℕ → List ActiveJob → List ActiveJob
acknowledge_job id seq [] = []
acknowledge_job id seq (job ∷ jobs) =
    if same_key id seq job
    then record job { acknowledged = true } ∷ jobs
    else job ∷ acknowledge_job id seq jobs

abbrev pub end_job : Text → ℕ → Worker → Worker
end_job id seq w =
    if is_active id seq w.jobs
    then record w { jobs = remove_job id seq w.jobs; job_count = w.job_count - 1 }
    else w

-- What a goroutine of the worker does next.
pub data WorkerEvent : Type 0 where
  run_called : WorkerEvent  -- `Run`
  connect_begun : WorkerEvent  -- `connect`, at its top
  registered : WorkerEvent  -- `connect`, once it is registered
  registration_lost : WorkerEvent  -- a 404 of a poll or a heartbeat
  polled : List Assignment → WorkerEvent  -- the answer of a poll for the free slots
  next_job : WorkerEvent  -- the next round of the loop over the answer
  ack_answered : Text → ℕ → Bool → WorkerEvent  -- whether the server took the acknowledgement
  job_over : Text → ℕ → WorkerEvent
  drain_called : WorkerEvent
  drain_over : WorkerEvent  -- no job is left, or the deadline has passed
  stop_called : WorkerEvent

-- The slots that a poll asks for: the loop waits if there is none.
abbrev pub free_slots : (max_jobs : ℕ) → Worker → ℕ
free_slots max_jobs w = max_jobs - w.job_count

-- The loop over a poll's answer: the jobs that are left are dropped unless the worker is connected.
unfoldable pub take_from : List Assignment → Worker → Worker
unfolding process_job
take_from [] w = w
take_from (job ∷ jobs) w =
    if is_connected w.state
    then process_job job (record w { assigned = jobs })
    else record w { assigned = [] }

abbrev pub none_left : List Assignment → Bool
none_left [] = true
none_left (job ∷ jobs) = false

-- `Run` begins once, from an idle worker.
abbrev pub run_state : WorkerState → WorkerState
run_state idle = connecting
run_state connecting = connecting
run_state connected = connected
run_state draining = draining
run_state stopped = stopped

-- `lostRegistration`
abbrev pub lost_registration : WorkerState → WorkerState
lost_registration connected = connecting
lost_registration idle = idle
lost_registration connecting = connecting
lost_registration draining = draining
lost_registration stopped = stopped

unfoldable pub worker_step : (max_jobs : ℕ) → WorkerEvent → Worker → Worker
unfolding process_job take_from stop remove_job acknowledge_job
worker_step max_jobs run_called w = record w { state = run_state w.state }
worker_step max_jobs connect_begun w = record w { state = store_unless_draining w.state connecting }
worker_step max_jobs registered w = record w { state = store_unless_draining w.state connected }
worker_step max_jobs registration_lost w = record w { state = lost_registration w.state }
worker_step max_jobs (polled jobs) w =
    if is_connected w.state && (ltb 0 (free_slots max_jobs w) && none_left w.assigned)
    then record w { assigned = jobs }
    else w
worker_step max_jobs next_job w = take_from w.assigned w
worker_step max_jobs (ack_answered id seq taken) w =
    if taken then record w { jobs = acknowledge_job id seq w.jobs } else end_job id seq w
worker_step max_jobs (job_over id seq) w = end_job id seq w
worker_step max_jobs drain_called w = record w { state = store_unless_draining w.state draining }
worker_step max_jobs drain_over w = stop w
worker_step max_jobs stop_called w = stop w

unfoldable pub worker_steps : (max_jobs : ℕ) → List WorkerEvent → Worker → Worker
unfolding worker_step
worker_steps max_jobs [] w = w
worker_steps max_jobs (event ∷ events) w =
    worker_steps max_jobs events (worker_step max_jobs event w)
