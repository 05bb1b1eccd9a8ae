-- ===== src/Examples/Workers.antt =====
-- A worker for two jobs at once: polls, jobs that end, a drain; and an update that is stale.
use ironflow_go.Prelude.{ℕ, ◌≡◌, refl, List, [], ◌∷◌, Text, codes, true, false, text_eq}
use ironflow_go.Worker.{
  Assignment, Worker, WorkerEvent, run_called, connect_begun, registered, polled, next_job,
  ack_answered, drain_over, worker_steps, worker_step, new_worker, process_job, take_from,
  is_active, remove_job, draining, acknowledge_job,
}
use ironflow_go.Worker.Reporter.{PutReply, put_status}

abbrev assignment : Text → ℕ → Assignment
assignment id seq = record { job_id = id; execution_seq = seq; lease_token = codes "lease" }

abbrev two_polled : List WorkerEvent
two_polled =
    run_called
    ∷ connect_begun
    ∷ registered
    ∷ polled (assignment (codes "a") 1 ∷ assignment (codes "b") 1 ∷ [])
    ∷ next_job
    ∷ next_job
    ∷ ack_answered (codes "a") 1 true
    ∷ ack_answered (codes "b") 1 false
    ∷ polled (assignment (codes "a") 2 ∷ [])
    ∷ next_job
    ∷ []

two_jobs_count : (worker_steps 2 two_polled new_worker).job_count ≡ 2
unfolding worker_steps worker_step process_job take_from is_active remove_job acknowledge_job
    text_eq
two_jobs_count = refl

abbrev closing_worker : Worker
closing_worker = record new_worker { state = draining; assigned = assignment (codes "late") 1 ∷ [] }

abbrev late_events : List WorkerEvent
late_events = next_job ∷ registered ∷ run_called ∷ drain_over ∷ connect_begun ∷ []

abbrev stale_reply : PutReply
stale_reply = put_status 409 true (codes "stale")
