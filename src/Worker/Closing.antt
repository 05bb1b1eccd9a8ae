-- ===== src/Worker/Closing.antt =====
-- What a worker of ironflow/worker.go that drains or is stopped still does.
use ironflow_go.Prelude.{ℕ, ◌≡◌, ◌≤◌, Text, false}
use ironflow_go.Worker.{
  WorkerState, idle, connecting, connected, draining, stopped, Worker, is_active,
}

-- A worker never goes back: draining ends in a stop, and a stop is final.
abbrev pub rank : WorkerState → ℕ
rank idle = 0
rank connecting = 0
rank connected = 0
rank draining = 1
rank stopped = 2

-- From `before`, where the worker is closing and the job is not active.
abbrev Closes : Text → ℕ → Worker → Worker → Type 0
Closes id seq before after =
    (rank before.state ≤ rank after.state) × (is_active id seq after.jobs ≡ false)
