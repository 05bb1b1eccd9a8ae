-- ===== src/Projection/Runner.antt =====
-- The loops of a projection's runner: `run`, `acquireLease`, `startRenew`, `streamLoop` and `pollLoop`
-- of ironflow/projection_runner.go, one iteration at a time. Durations are in milliseconds. The jitter
-- of a standby's wait and what is logged are left out.
pub mod Lease
pub mod Backoff
pub mod Stops
use ironflow_go.Prelude.{
  ℕ, suc, ◌+◌, ◌-◌, ◌*◌, ◌/◌, ◌^◌, Option, none, some, List, [], ◌∷◌, ◌++◌, Bool, true, false, not,
  ◌==◌, ◌&&◌, ◌||◌, leb, ltb, if◌then◌else◌,
}
use ironflow_go.Projection.Errors.{
  ProjectionError, err_is, register_fatal, unimplemented, unauthorized, forbidden, lease_lost,
  streaming_unsupported, batch_failed, sentinel,
}
use ironflow_go.Projection.Load.{Answer, answered, refused}

abbrev pub min_backoff : ℕ
min_backoff = 1000

abbrev pub max_backoff : ℕ
max_backoff = 10000

abbrev pub stream_ended_wait : ℕ
stream_ended_wait = 1000

abbrev pub reconnect_base : ℕ
reconnect_base = 2000

abbrev pub reconnect_max : ℕ
reconnect_max = 30000

abbrev pub renew_retry : ℕ
renew_retry = 1000

abbrev pub default_lease_ttl : ℕ
default_lease_ttl = 30000

-- `min`, and `minDuration`
abbrev pub min_of : ℕ → ℕ → ℕ
min_of a b = if ltb a b then a else b

-- `reconnectDelay`, of at least one failure.
unfoldable pub reconnect_delay : ℕ → ℕ
reconnect_delay failures = min_of (reconnect_base * 2 ^ min_of (failures - 1) 4) reconnect_max

abbrev pub is_auth_error : ProjectionError → Bool
is_auth_error e = err_is unauthorized e || err_is forbidden e

-- What a loop does after one iteration: it returns, or it sleeps and goes on.
pub data Next : Type 0 where
  returns : Option ProjectionError → Next
  goes_on : (sleep count : ℕ) → Next

-- The failures counted after a stream that failed.
unfoldable pub failures_after : (received progressed : Bool) → ProjectionError → ℕ → ℕ
failures_after received progressed e failures =
    suc (if progressed || (received && not (err_is batch_failed e)) then 0 else failures)

-- `streamLoop` after `readStream`; `stopped` is whether the runner is.
unfoldable pub after_read :
    (stopped received progressed : Bool) → Option ProjectionError → (failures : ℕ) → Next
unfolding failures_after reconnect_delay
after_read true received progressed error failures = returns none
after_read false received progressed none failures = goes_on stream_ended_wait 0
after_read false received progressed (some e) failures =
    if err_is lease_lost e || (err_is streaming_unsupported e || is_auth_error e)
    then returns (some e)
    else (let failures' = failures_after received progressed e failures in
        goes_on (reconnect_delay failures') failures')

-- `pollLoop` after `poll`: the sleep, and the backoff from then on.
unfoldable pub after_poll : (stopped : Bool) → Answer ℕ → (backoff : ℕ) → Next
after_poll true answer backoff = returns none
after_poll false (refused e) backoff =
    if is_auth_error e || err_is lease_lost e
    then returns (some e)
    else goes_on backoff (min_of (backoff * 2) max_backoff)
after_poll false (answered processed) backoff =
    if ltb 0 processed
    then goes_on 0 min_backoff
    else goes_on backoff (min_of (backoff * 2) max_backoff)

-- A renew's answer: the next wait, the TTL and the failures in a row, or the lease is lost.
pub data Renewing : Type 0 where
  renews : (wait ttl failed : ℕ) → Renewing
  renew_lost : Renewing
  renew_ended : Renewing

-- `startRenew`, after a call; the answer has the TTL that the server tells, 0 if it tells none.
unfoldable pub after_renew : (cancelled : Bool) → Answer ℕ → (ttl failed : ℕ) → Renewing
after_renew cancelled (answered told) ttl failed =
    let ttl' = if ltb 0 told then told else ttl in renews (ttl' / 3) ttl' 0
after_renew cancelled (refused e) ttl failed =
    if err_is lease_lost e
    then renew_lost
    else (if cancelled then renew_ended else renews renew_retry ttl (suc failed))

-- The TTL of a grant, where the server tells 0 or none.
unfoldable pub lease_ttl : (told : ℕ) → ℕ
lease_ttl told = if ltb 0 told then told else default_lease_ttl

-- Where the goroutine of a runner stands.
pub data Phase : Type 0 where
  registering : (failures : ℕ) → ProjectionError → Phase
  seeking : Phase
  streaming : (failures : ℕ) → Phase
  polling : (backoff : ℕ) → Phase
  finished : Option ProjectionError → Phase

-- `polls` is the variable `polling` of `run`, which no lost lease resets.
pub record Runner : Type 0 where
  pub phase : Phase
  pub polls : Bool

-- A grant has the TTL that the server tells.
pub data Acquired : Type 0 where
  granted : (ttl : ℕ) → Acquired
  held_by_other : Acquired

-- What the runner meets in one iteration: whether it is stopped at its top, after the call that it
-- makes and where `run` decides, whether the lease is lost, and the call's answer.
pub record Happening : Type 0 where
  pub stopped : Bool
  pub stopped_after : Bool
  pub stopped_last : Bool
  pub lost : Bool
  pub register_answer : Option ProjectionError
  pub acquire_answer : Answer Acquired
  pub received : Bool
  pub progressed : Bool
  pub read_error : Option ProjectionError
  pub poll_answer : Answer ℕ

-- What the server sees of a runner, and `stood_by` where a runner gives its lost lease up.
pub data Request : Type 0 where
  registers : Request
  acquires : (is_granted : Bool) → Request
  streams : Request
  asks : Request
  releases : Request
  stood_by : Request

-- The end of `run`'s loop, while a lease is held.
unfoldable pub after_loop :
    (stopped : Bool) → Option ProjectionError → Runner → Runner × List Request
after_loop stopped none r = (record r { phase = finished none }, releases ∷ [])
after_loop stopped (some e) r =
    if err_is lease_lost e && not stopped
    then (record r { phase = seeking }, stood_by ∷ [])
    else (record r { phase = finished (some e) }, releases ∷ [])

abbrev pub reading : Bool → Phase
reading true = polling min_backoff
reading false = streaming 0

-- A lease that was granted is given back if `Stop` ran meanwhile.
unfoldable pub after_acquire :
    (stopped_after : Bool) → Answer Acquired → Runner → Runner × List Request
after_acquire stopped_after (answered (granted ttl)) r =
    if stopped_after
    then (record r { phase = finished none }, acquires true ∷ releases ∷ [])
    else (record r { phase = reading r.polls }, acquires true ∷ [])
after_acquire stopped_after (answered held_by_other) r =
    (record r { phase = seeking }, acquires false ∷ [])
after_acquire stopped_after (refused e) r =
    if err_is unimplemented e || is_auth_error e
    then (record r { phase = finished (some e) }, acquires false ∷ [])
    else (record r { phase = seeking }, acquires false ∷ [])

abbrev pub then_loop : Request → Runner × List Request → Runner × List Request
then_loop request (r, requests) = (r, request ∷ requests)

-- After a call of a loop: a stream that the server does not support is polled from then on.
unfoldable pub after_stream : (stopped : Bool) → Next → Runner → Runner × List Request
unfolding after_loop
after_stream stopped (goes_on sleep failures) r = (record r { phase = streaming failures }, [])
after_stream stopped (returns none) r = after_loop stopped none r
after_stream stopped (returns (some e)) r =
    if err_is streaming_unsupported e
    then (record { phase = polling min_backoff; polls = true }, [])
    else after_loop stopped (some e) r

unfoldable pub after_ask : (stopped : Bool) → Next → Runner → Runner × List Request
unfolding after_loop
after_ask stopped (goes_on sleep backoff) r = (record r { phase = polling backoff }, [])
after_ask stopped (returns error) r = after_loop stopped error r

-- `run` with a registration that failed `failures` times.
unfoldable pub after_register : Happening → ℕ → ProjectionError → Runner → Runner × List Request
after_register h failures e r =
    if h.stopped
    then (record r { phase = finished none }, [])
    else (if register_fatal e then (record r { phase = finished (some e) }, []) else (
      record r {
        phase = elim h.register_answer [ none ↦ seeking | some f ↦ registering (suc failures) f ];
      },
      registers ∷ [],
    ))

abbrev pub no_lease : ProjectionError
no_lease = sentinel lease_lost

-- One iteration of the innermost loop that the runner is in.
unfoldable pub step_at : Phase → Happening → Runner → Runner × List Request
unfolding after_register after_acquire after_stream after_ask after_loop after_read after_poll
step_at (registering failures e) h r = after_register h failures e r
step_at seeking h r =
    if h.stopped
    then (record r { phase = finished none }, [])
    else after_acquire h.stopped_after h.acquire_answer r
step_at (streaming failures) h r =
    if h.lost
    then after_loop h.stopped_last (some no_lease) r
    else then_loop streams (
        after_stream h.stopped_last
          (after_read h.stopped_after h.received h.progressed h.read_error failures) r)
step_at (polling backoff) h r =
    if h.stopped
    then after_loop h.stopped_last none r
    else (if h.lost
        then after_loop h.stopped_last (some no_lease) r
        else then_loop asks
            (after_ask h.stopped_last (after_poll h.stopped_after h.poll_answer backoff) r))
step_at (finished error) h r = (r, [])

-- `Start`, with the first registration's answer: its error, or the runner that goes on by itself.
unfoldable pub start_runner : Option ProjectionError → Answer Runner
start_runner none = answered (record { phase = seeking; polls = false })
start_runner (some e) =
    if register_fatal e
    then refused e
    else answered (record { phase = registering 1 e; polls = false })

unfoldable pub run_steps : List Happening → Runner → Runner × List Request
unfolding step_at
run_steps [] r = (r, [])
run_steps (h ∷ happenings) r =
    let (r', requests) = step_at r.phase h r in
    let (last, later) = run_steps happenings r' in (last, requests ++ later)
