-- ===== src/Projection/Runner/Lease.antt =====
-- What the server sees of the runner of ironflow/projection_runner.go, against the protocol of a lease.
use ironflow_go.Prelude.{
  ℕ, ◌≡◌, refl, ap, ◌∙◌, Option, none, some, List, [], ◌∷◌, ◌++◌, Bool, true, false, not, ◌&&◌,
  ◌||◌, if◌then◌else◌, Bool-cases, inl, inr, Option-cases,
}
use ironflow_go.Projection.Errors.{
  ProjectionError, err_is, register_fatal, lease_lost, unimplemented, streaming_unsupported,
}
use ironflow_go.Projection.Load.{Answer, answered, refused}
use ironflow_go.Projection.Runner.{
  Phase, registering, seeking, streaming, polling, finished, Runner, Acquired, granted,
  held_by_other, Happening, Request, registers, acquires, streams, asks, releases, stood_by, Next,
  returns, goes_on, after_loop, after_acquire, after_stream, after_ask, after_register, step_at,
  run_steps, is_auth_error, no_lease, after_read, after_poll,
}

-- The protocol, from whether the runner holds the lease: it registers and acquires without it, reads
-- with it, and gives it back or stands by, once.
abbrev pub follow : Bool → Request → Option Bool
follow false registers = some false
follow false (acquires is_granted) = some is_granted
follow true streams = some true
follow true asks = some true
follow true releases = some false
follow true stood_by = some false
follow false streams = none
follow false asks = none
follow false releases = none
follow false stood_by = none
follow true registers = none
follow true (acquires is_granted) = none

abbrev pub follow_all : Bool → List Request → Option Bool
follow_all held [] = some held
follow_all held (request ∷ requests) = elim (follow held request) [
  | none ↦ none
  | some now ↦ follow_all now requests
]

abbrev pub holds : Phase → Bool
holds (registering failures e) = false
holds seeking = false
holds (streaming failures) = true
holds (polling backoff) = true
holds (finished error) = false

abbrev pub Follows : Bool → Runner × List Request → Type 0
Follows held (r, requests) = follow_all held requests ≡ some (holds r.phase)

Follows-if :
    (held b : Bool) (x y : Runner × List Request)
    → Follows held x
    → Follows held y
    → Follows held (if b then x else y)
Follows-if held true x y p q = p
Follows-if held false x y p q = q

follow_all-append :
    (held now : Bool) (requests later : List Request)
    → follow_all held requests ≡ some now
    → follow_all held (requests ++ later) ≡ follow_all now later
follow_all-append held now [] later h =
    ap (λ o. elim o [ none ↦ none | some b ↦ follow_all b later ]) h
follow_all-append held now (request ∷ requests) later h =
    elim (Option-cases (follow held request)) [
      | inl stuck ↦ absurd (cc (rw (stuck, follow_all) at h))
      | inr (b, goes) ↦
          rw (goes, follow_all)
            (follow_all-append b now requests later (rw (goes, follow_all) at h))
    ]

after_loop-Follows :
    (stopped : Bool) (error : Option ProjectionError) (r : Runner)
    → Follows true (after_loop stopped error r)
unfolding after_loop
after_loop-Follows stopped none r = refl
after_loop-Follows stopped (some e) r =
    Follows-if true (err_is lease_lost e && not stopped) _ _ refl refl

after_acquire-Follows :
    (stopped : Bool) (answer : Answer Acquired) (r : Runner)
    → Follows false (after_acquire stopped answer r)
unfolding after_acquire
after_acquire-Follows true (answered (granted ttl)) r = refl
after_acquire-Follows false (answered (granted ttl)) r = elim (Bool-cases r.polls) [
  | inl by_poll ↦ rw (by_poll) refl
  | inr by_stream ↦ rw (by_stream) refl
]
after_acquire-Follows stopped (answered held_by_other) r = refl
after_acquire-Follows stopped (refused e) r =
    Follows-if false (err_is unimplemented e || is_auth_error e) _ _ refl refl

after_stream-Follows :
    (stopped : Bool) (next : Next) (r : Runner) → Follows true (after_stream stopped next r)
unfolding after_stream
after_stream-Follows stopped (goes_on sleep failures) r = refl
after_stream-Follows stopped (returns none) r = after_loop-Follows stopped none r
after_stream-Follows stopped (returns (some e)) r =
    Follows-if true (err_is streaming_unsupported e) _ _ refl
      (after_loop-Follows stopped (some e) r)

after_ask-Follows :
    (stopped : Bool) (next : Next) (r : Runner) → Follows true (after_ask stopped next r)
unfolding after_ask
after_ask-Follows stopped (goes_on sleep backoff) r = refl
after_ask-Follows stopped (returns error) r = after_loop-Follows stopped error r

after_register-Follows :
    (h : Happening) (failures : ℕ) (e : ProjectionError) (r : Runner)
    → Follows false (after_register h failures e r)
unfolding after_register
after_register-Follows h failures e r = Follows-if false h.stopped _ _ refl (
    Follows-if false (register_fatal e) _ _ refl (elim (Option-cases h.register_answer) [
      | inl fine ↦ rw (fine) refl
      | inr (f, again) ↦ rw (again) refl
    ]))

step_at-Follows :
    (phase : Phase) (h : Happening) (r : Runner)
    → phase ≡ r.phase
    → Follows (holds phase) (step_at phase h r)
unfolding step_at
step_at-Follows (registering failures e) h r here = after_register-Follows h failures e r
step_at-Follows seeking h r here =
    Follows-if false h.stopped _ _ refl (after_acquire-Follows h.stopped_after h.acquire_answer r)
step_at-Follows (streaming failures) h r here =
    Follows-if true h.lost _ _ (after_loop-Follows h.stopped_last (some no_lease) r) (
      after_stream-Follows h.stopped_last
        (after_read h.stopped_after h.received h.progressed h.read_error failures) r)
step_at-Follows (polling backoff) h r here =
    Follows-if true h.stopped _ _ (after_loop-Follows h.stopped_last none r) (
      Follows-if true h.lost _ _ (after_loop-Follows h.stopped_last (some no_lease) r)
        (after_ask-Follows h.stopped_last (after_poll h.stopped_after h.poll_answer backoff) r))
step_at-Follows (finished error) h r here = ap (λ p. some (holds p)) here

-- Whatever happens, what a runner asks of the server follows the lease's protocol: it reads only between
-- a grant and the one release or standby after it, it never asks for a lease that it holds, and once it
-- has finished it holds none.
pub run_steps-Follows :
    (happenings : List Happening) (r : Runner) → Follows (holds r.phase) (run_steps happenings r)
unfolding run_steps
run_steps-Follows [] r = refl
run_steps-Follows (h ∷ happenings) r =
    follow_all-append (holds r.phase) _ (step_at r.phase h r).1 _ (step_at-Follows r.phase h r refl)
    ∙ run_steps-Follows happenings (step_at r.phase h r).0
