-- ===== src/Lib.antt =====
-- Verification library of the Ironflow Go SDK: durable functions that are run step by step, suspended
-- and run again by an engine, with the results of earlier steps as rows.
--
-- The parts and their files
--   StepId          the composite ids of ironflow/step.go (escapeStepIDPart, generateStepID)
--   Errors          ironflow/errors.go: error values and their chains, IsRetryable, retryAfterMs,
--                   isTerminalFailure (Errors/Retry), suspension signals and formatDuration
--                   (Errors/Yields), restErrorCode (Errors/Rest);
--                   ironflow/connect_errors.go (Errors/Connect)
--   Exec            executionContext, BranchContext and the state that a step reads and writes; the
--                   actions on it are functions Frame -> Outcome x Frame, an outcome being a value, an
--                   error, or a panic with a yield signal
--   Exec/Ids        the counters of a scope, the ids it gives out, resume data (StepContext)
--   Exec/Run        runWithStepID of ironflow/step.go and runBranchWithStepID of ironflow/parallel.go
--   Exec/Suspend    Sleep, SleepUntil, WaitForEvent
--   Exec/Invoke     Invoke, InvokeAsync
--   Exec/Compensate registerCompensation and executeCompensations
--   Parallel        ironflow/parallel.go: the slots of a fan-out's branches and what a call answers;
--                   Parallel/Schedule has its schedules as an indexed relation, Parallel/Call the calls,
--                   Parallel/Warning the warning on branches that ignore their scope
--   Dedup           ironflow/command_dedup.go, over a bucket of ironflow/kv.go as a parameter
--   Projection      ironflow/projection_runner.go: Batch and Managed the reducer and its saves, Load and
--                   Process the states that a batch starts from and saves, External the handlers with
--                   an acknowledgement, Stream the batches of readStream, Runner the loops around them
--                   one iteration at a time (run, acquireLease, streamLoop, pollLoop), Sorted the order
--   Worker          ironflow/worker.go: the states and jobs of a pull worker as events of its goroutines
--                   (Capacity, Closing), Polling the decisions of its loops, Reporter its updates
--   Signature       ironflow/signature.go: SignPayload, ParseSignature, VerifySignature (Pieces, RoundTrip
--                   and Sound are proofs)
--   FunctionConfig  ironflow/function.go: what CreateFunction accepts (Accepted), and Metadata
--   Upcaster        ironflow/upcaster.go
--   Job/Encode      ironflow/encode_guard.go
--   Job/Checkpoint  stepCheckpointer of ironflow/job_executor.go
--   Job/Assignment  jobAssignment and what execute builds from it; validateEventInput
--   Job/Execute     jobExecutor.execute, from the handler to the report
--   Prelude         shared names: Boolean tests, lists by native numbers, integers, texts, maps
--   Examples        concrete inputs, tests, and the theorems applied to them
-- A job (Job/Execute) builds an execution context (Job/Assignment), runs a handler whose steps are the
-- actions of Exec, and reports what it recorded, cut to what encodes (Job/Encode), after what the
-- checkpointer has reported already (Job/Checkpoint). Errors decide what may be retried and when
-- compensations run. A worker (Worker) polls such jobs, runs at most as many as it is configured for and
-- sends their reports with the fence of their execution (Worker/Reporter). A projection's runner
-- (Projection/Runner) holds the lease while it reads; what its stream gathers (Projection/Stream) or a
-- poll answers is a batch, which goes to the reducer or the handler (Projection/Process, External).
--
-- How the code is rendered
--   A Go string is a list of bytes. A map is an association list; a lookup of a missing key is none.
--   Values of type any are of a type V, nil is none. Signed durations are integers, and where only a
--   positive one is read, a natural number of nanoseconds. Arithmetic on int is that of the numbers:
--   counters and offsets stay far below 2^63. User code, encoding/json, fmt's %q and %s, time.Parse,
--   the reporter and the worker's context are parameters, functions of a state W of the world where
--   they have effects. A call that may be cancelled reads the world at each check, as the code does.
--   itoa has fuel: a number has fewer digits than its value plus one, and StepId/Decimal shows that
--   this is enough. The loop of Upcast makes toVersion - fromVersion rounds, and TryClaim three, as in
--   the code. The loops over steps, branches, compensations, error chains, events, texts and checks are
--   structural. The loops of a runner and of a worker that end only on Stop are given one iteration at
--   a time, over any list of what they meet. HMAC-SHA256, floating point and the tables of package
--   unicode are parameters.
--
-- Not modelled
--   The test interceptor, loggers, mutexes (each action is atomic), wall-clock times in results, error
--   details, what a step's function does after its timeout, panics other than a yield, secrets of a
--   job; the timers and goroutines of a projection's runner and of a worker, whose actions are given as
--   sequences of events, and the waits of Stop; the encoding of requests, HTTP, the streaming worker,
--   subscriptions, agents, and generated code.
mod Prelude
pub mod StepId
pub mod Errors
pub mod Exec
pub mod Parallel
pub mod Dedup
pub mod Projection
pub mod Worker
pub mod Signature
pub mod FunctionConfig
pub mod Upcaster
pub mod Job
mod Examples
