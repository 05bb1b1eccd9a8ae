-- ===== src/Worker/Polling.antt =====
-- What the loops of ironflow/worker.go decide: `pollForJobs` after a poll, `Run` after a connection,
-- `requestJobs` on an answer, and the waits. Durations are in nanoseconds; where only a positive one
-- matters, a natural number.
use ironflow_go.Prelude.{
  ℕ, ◌-◌, ◌*◌, ◌/◌, ◌≤◌, Option, none, some, List, [], ◌∷◌, Text, codes, Bool, true, false, ◌==◌,
  ◌||◌, ltb, if◌then◌else◌, arith, ℤ, pos, negsuc, is_zero, is_pos, pos_part,
}
use ironflow_go.Worker.{WorkerState, draining, stopped, Assignment, is_legacy}

abbrev pub second : ℕ
second = 1000000000

abbrev pub default_max_concurrent_jobs : ℤ
default_max_concurrent_jobs = pos 10

abbrev pub default_heartbeat_interval : ℤ
default_heartbeat_interval = pos (30 * second)

abbrev pub default_reconnect_delay : ℤ
default_reconnect_delay = pos (5 * second)

abbrev pub default_poll_wait : ℤ
default_poll_wait = pos (20 * second)

abbrev pub max_poll_wait : ℕ
max_poll_wait = 25 * second

abbrev pub default_drain_timeout : ℕ
default_drain_timeout = 30 * second

pub record WorkerConfig : Type 0 where
  pub max_concurrent_jobs : ℤ
  pub heartbeat_interval : ℤ
  pub reconnect_delay : ℤ
  pub poll_wait : ℤ
  pub drain_timeout : ℤ

abbrev pub or_default : ℤ → ℤ → ℤ
or_default default given = if is_zero given then default else given

-- `NewWorker`: the defaults of what is left at zero.
unfoldable pub new_worker_config : WorkerConfig → WorkerConfig
new_worker_config c = record c {
  max_concurrent_jobs = or_default default_max_concurrent_jobs c.max_concurrent_jobs;
  heartbeat_interval = or_default default_heartbeat_interval c.heartbeat_interval;
  reconnect_delay = or_default default_reconnect_delay c.reconnect_delay;
  poll_wait = or_default default_poll_wait c.poll_wait;
}

-- `drainTimeout`
unfoldable pub drain_timeout_of : ℤ → ℕ
drain_timeout_of d = if is_pos d then pos_part d else default_drain_timeout

-- `pollWaitSeconds`; 0 sends no wait.
unfoldable pub poll_wait_seconds : ℤ → ℕ
poll_wait_seconds (negsuc n) = 0
poll_wait_seconds (pos d) =
    let whole = (if ltb d max_poll_wait then d else max_poll_wait) / second in
    if ltb whole 1 then 1 else whole

-- The errors that the loops tell apart.
pub data PollError : Type 0 where
  not_registered : PollError
  unauthorized_or_forbidden : PollError
  other_failure : Text → PollError

-- An answer to a poll. Under 200 the body has a batch, or a job of its own, whose id may be empty.
pub data PollReply : Type 0 where
  no_reply : Text → PollReply
  no_content : (held_seconds : ℕ) → PollReply
  content : List Assignment → Assignment → PollReply
  not_json : Text → PollReply
  other_status : ℕ → PollReply

pub data Requested : Type 0 where
  jobs : (found : List Assignment) (held : Bool) → Requested
  request_failed : PollError → Requested

-- `requestJobs`: a batch, or the one job of an older server.
unfoldable pub request_jobs : PollReply → Requested
request_jobs (no_reply m) = request_failed (other_failure m)
request_jobs (no_content held_seconds) = jobs [] (ltb 0 held_seconds)
request_jobs (not_json m) = request_failed (other_failure m)
request_jobs (content (job ∷ batch) single) = jobs (job ∷ batch) false
request_jobs (content [] single) =
    if is_legacy single.job_id then jobs [] false else jobs (single ∷ []) false
request_jobs (other_status status) =
    if status == 401 || status == 403
    then request_failed unauthorized_or_forbidden
    else (if status == 404
        then request_failed not_registered
        else request_failed (other_failure (codes "unexpected status")))

-- What a round of `pollForJobs` comes to.
pub data PollNext : Type 0 where
  polls_at_once : PollNext
  polls_after : (wait : ℕ) → PollNext
  runs_jobs : List Assignment → PollNext
  registers_after : (wait : ℤ) → PollNext
  leaves : Option PollError → PollNext  -- none if its context is done

-- A round with a free slot, after `requestJobs`.
unfoldable pub after_request : (context_done : Bool) (reconnect_delay : ℤ) → Requested → PollNext
after_request context_done delay (request_failed not_registered) = registers_after delay
after_request context_done delay (request_failed unauthorized_or_forbidden) =
    if context_done then leaves none else leaves (some unauthorized_or_forbidden)
after_request context_done delay (request_failed (other_failure m)) =
    if context_done then leaves none else polls_after (5 * second)
after_request context_done delay (jobs [] true) = polls_at_once
after_request context_done delay (jobs [] false) = polls_after second
after_request context_done delay (jobs (job ∷ found) held) = runs_jobs (job ∷ found)

-- `int(MaxConcurrentJobs) - jobCount`, where it is positive.
unfoldable pub poll_round :
    (max_jobs job_count : ℕ) (context_done : Bool) (reconnect_delay : ℤ) → Requested → PollNext
unfolding after_request
poll_round max_jobs job_count context_done delay requested =
    if ltb 0 (max_jobs - job_count)
    then after_request context_done delay requested
    else polls_after second

-- What `Run` does after `connect`; `stops_with` and `drains` go through `Stop` and `Drain`.
pub data RunNext (E : Type 0) : Type 0 where
  connects_again : RunNext E
  returns_nil : RunNext E
  waits_for_stop : RunNext E
  drains : RunNext E
  stops_with : E → RunNext E
  reconnects_after : E → RunNext E

unfoldable pub after_connect :
    {E : Type 0}
    → (is_retryable : E → Bool) → WorkerState
    → (context_done : Bool) → Option E
    → RunNext E
after_connect is_retryable state context_done none = connects_again
after_connect is_retryable stopped context_done (some e) = returns_nil
after_connect is_retryable draining context_done (some e) = waits_for_stop
after_connect is_retryable state true (some e) = drains
after_connect is_retryable state false (some e) =
    if is_retryable e then reconnects_after e else stops_with e

-- A poll wait that is not negative is sent in whole seconds, from 1 to 25.
pub poll_wait_seconds_bounds :
    (d : ℕ) → (1 ≤ poll_wait_seconds (pos d)) × (poll_wait_seconds (pos d) ≤ 25)
unfolding poll_wait_seconds
poll_wait_seconds_bounds d = (ground arith, ground arith)
