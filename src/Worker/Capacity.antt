-- ===== src/Worker/Capacity.antt =====
-- The count of active jobs, their keys, and the bound on both in ironflow/worker.go.
use ironflow_go.Prelude.{ℕ, ◌+◌, ◌≤◌, ◌≡◌, List, [], ◌∷◌, length}
use ironflow_go.Worker.{
  Worker, WorkerEvent, run_called, connect_begun, registered, registration_lost, polled, next_job,
  ack_answered, job_over, drain_called, drain_over, stop_called, free_slots, worker_step,
}
use ironflow_go.Worker.Keys.{Distinct}

-- The count is that of the active jobs, whose keys are distinct, and there is room for what was
-- assigned.
pub record WellFormed (max_jobs : ℕ) (w : Worker) : Type 0 where
  pub counted : w.job_count ≡ length w.jobs
  pub distinct : Distinct w.jobs
  pub bounded : w.job_count + length w.assigned ≤ max_jobs

abbrev pub Fits : ℕ → WorkerEvent → Worker → Type 0
Fits max_jobs (polled jobs) w = length jobs ≤ free_slots max_jobs w
Fits max_jobs run_called w = Unit
Fits max_jobs connect_begun w = Unit
Fits max_jobs registered w = Unit
Fits max_jobs registration_lost w = Unit
Fits max_jobs next_job w = Unit
Fits max_jobs (ack_answered id seq taken) w = Unit
Fits max_jobs (job_over id seq) w = Unit
Fits max_jobs drain_called w = Unit
Fits max_jobs drain_over w = Unit
Fits max_jobs stop_called w = Unit

-- The server answers a poll with at most as many jobs as it asks for.
abbrev pub Granted : ℕ → List WorkerEvent → Worker → Type 0
Granted max_jobs [] w = Unit
Granted max_jobs (event ∷ events) w =
    Fits max_jobs event w × Granted max_jobs events (worker_step max_jobs event w)
