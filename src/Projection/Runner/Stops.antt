-- ===== src/Projection/Runner/Stops.antt =====
-- `Stop` ends the loops of ironflow/projection_runner.go: each iteration that sees it is the last.
use ironflow_go.Prelude.{
  ◌≡◌, refl, sym, ap, ◌∙◌, Option, none, some, List, [], ◌∷◌, ◌++◌, Bool, true, false,
  if◌then◌else◌, Bool-cases, inl, inr,
}
use ironflow_go.Projection.Errors.{ProjectionError, err_is, lease_lost}
use ironflow_go.Projection.Runner.{
  Phase, registering, seeking, streaming, polling, finished, Runner, Happening, Request, after_loop,
  after_stream, after_ask, after_register, after_read, after_poll, step_at, run_steps, no_lease,
}

abbrev pub is_finished : Phase → Bool
is_finished (registering failures e) = false
is_finished seeking = false
is_finished (streaming failures) = false
is_finished (polling backoff) = false
is_finished (finished error) = true

abbrev Ends : Runner × List Request → Type 0
Ends (r, requests) = is_finished r.phase ≡ true

Ends-if : (b : Bool) (x y : Runner × List Request) → Ends x → Ends y → Ends (if b then x else y)
Ends-if true x y p q = p
Ends-if false x y p q = q

Ends-after_loop : (error : Option ProjectionError) (r : Runner) → Ends (after_loop true error r)
unfolding after_loop
Ends-after_loop none r = refl
Ends-after_loop (some e) r = elim (Bool-cases (err_is lease_lost e)) [
  | inl gone ↦ rw (gone, after_loop) refl
  | inr other ↦ rw (other, after_loop) refl
]

-- The runner is stopped at the top of the iteration, and so after it.
abbrev pub stopped_now : Happening → Happening
stopped_now h = record h { stopped = true; stopped_after = true; stopped_last = true }

Ends-step_at :
    (phase : Phase) (h : Happening) (r : Runner)
    → phase ≡ r.phase
    → Ends (step_at phase (stopped_now h) r)
unfolding step_at after_register after_stream after_ask after_read after_poll
Ends-step_at (registering failures e) h r here = refl
Ends-step_at seeking h r here = refl
Ends-step_at (streaming failures) h r here = elim (Bool-cases h.lost) [
  | inl gone ↦ rw (gone, step_at) (Ends-after_loop (some no_lease) r)
  | inr held ↦ rw (held, step_at) (Ends-after_loop none r)
]
Ends-step_at (polling backoff) h r here = Ends-after_loop none r
Ends-step_at (finished error) h r here = sym (ap is_finished here) ∙ refl

-- Wherever a runner is, whatever it has met before and whatever the iteration in which it sees that it
-- is stopped meets: after that iteration it has finished.
pub run_steps-Ends :
    (happenings : List Happening) (h : Happening) (r : Runner)
    → is_finished (run_steps (happenings ++ stopped_now h ∷ []) r).0.phase ≡ true
unfolding run_steps
run_steps-Ends [] h r = Ends-step_at r.phase h r refl
run_steps-Ends (g ∷ happenings) h r = run_steps-Ends happenings h (step_at r.phase g r).0
