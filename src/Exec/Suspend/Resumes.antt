-- ===== src/Exec/Suspend/Resumes.antt =====
-- A suspended step goes on when the run is resumed from it.
use ironflow_go.Prelude.{
  ◌≡◌, refl, sym, ap, ap₂, ◌∙◌, inl, inr, Option, none, some, Option-cases, Text, codes, ℤ, true,
  false, Bool, lookup, arith, text_eq_refl,
}
use ironflow_go.Errors.{Err, YieldInfo, EventFilter}
use ironflow_go.Exec.{Frame, returned, errored, panicked, running, scoped}
use ironflow_go.Exec.Ids.{
  generate_root_step_id, generate_step_id, prefer_legacy_step_id, mark_resume_handled,
}
use ironflow_go.Exec.Ids.Keeps.{claimed, generate-resume, generate-claims, rows-generate}
use ironflow_go.Errors.Yields.{new_sleep_yield, new_wait_event_yield}
use ironflow_go.Exec.Suspend.{
  sleep_at, sleep, EventJson, completed_row, wait_at, suspend_wait, decode_wait_result,
  wait_for_event_impl,
}

-- The same context in the invocation that the engine resumes, from the step that suspended the run.
abbrev pub resumed_from : {V W : Type 0} → YieldInfo V → Option V → W → Frame V W → Frame V W
resumed_from info v w f = record f {
  exec = record f.exec {
    resume_context = some (record { step_id = info.step_id; kind = info.kind; resume_data = v });
  };
  world = w;
}

module _ {V W : Type 0} (until : W → Text) (id : Text) where
  sleep_at_yields :
      (f : Frame V W) (info : YieldInfo V)
      → (sleep_at until id f).0 ≡ panicked info
      → (info.step_id ≡ id) × (info.kind ≡ codes "sleep")
  unfolding sleep_at mark_resume_handled new_sleep_yield
  sleep_at_yields f info h = ground arith

  sleep_at_resumed :
      (f : Frame V W) (v : Option V)
      → f.exec.resume_context
        ≡ some (record { step_id = id; kind = codes "sleep"; resume_data = v })
      → sleep_at until id f ≡ mark_resume_handled f
  unfolding sleep_at
  sleep_at_resumed f v h =
      rw (h, sleep_at, running) (rw text_eq_refl (rw (text_eq_refl (codes "sleep"))))

module _ {V W : Type 0} (cancellation_err : W → Option (Err V)) (name : Text) where
  sleep-live :
      (wake_at : ℤ → W → Text) (duration : ℤ) (f : Frame V W)
      → cancellation_err f.world ≡ none
      → sleep cancellation_err wake_at name duration f
        ≡ sleep_at
            (wake_at duration)
            (generate_root_step_id name f.exec).0
            (record f { exec = (generate_root_step_id name f.exec).1 })
  unfolding sleep
  sleep-live wake_at duration f live = rw (live, sleep, running)

  sleep_live_of_yield :
      (wake_at : ℤ → W → Text) (duration : ℤ) (f : Frame V W) (info : YieldInfo V)
      → (sleep cancellation_err wake_at name duration f).0 ≡ panicked info
      → cancellation_err f.world ≡ none
  unfolding sleep
  sleep_live_of_yield wake_at duration f info h = elim (Option-cases (cancellation_err f.world)) [
    | inl live ↦ live
    | inr (e, cancelled) ↦
        (let h' : errored e ≡ panicked info = rw (cancelled, sleep, running) at h in cc)
  ]

  -- `Sleep` that suspended the run returns in the invocation that is resumed from it, with the same
  -- counters and rows and not cancelled, whatever the clock says then: the resume is marked as
  -- handled, and the world and the recorded steps stay as they are.
  pub sleep_resumes :
      (wake_at : ℤ → W → Text) (duration : ℤ) (f : Frame V W) (info : YieldInfo V) (v : Option V)
      (w : W)
      → (sleep cancellation_err wake_at name duration f).0 ≡ panicked info
      → cancellation_err w ≡ none
      → let after = sleep cancellation_err wake_at name duration (resumed_from info v w f) in
        (after.0 ≡ returned tt)
        × (after.1.exec.resume_handled ≡ true)
        × (after.1.exec.executed_steps ≡ f.exec.executed_steps)
        × (after.1.world ≡ w)
  unfolding generate_root_step_id mark_resume_handled prefer_legacy_step_id
  sleep_resumes wake_at duration f info v w yields live =
      let live_f = sleep_live_of_yield wake_at duration f info yields in
      let (id, kind) =
        sleep_at_yields (wake_at duration) _ _ info
          (ap (λ p. p.0) (sym (sleep-live wake_at duration f live_f)) ∙ yields) in
      let g = resumed_from info v w f in
      let resumed : sleep cancellation_err wake_at name duration g
          ≡ mark_resume_handled (record g { exec = (generate_root_step_id name g.exec).1 }) =
        sleep-live wake_at duration g live
        ∙ sleep_at_resumed (wake_at duration) _ _ v
            (ap₂ (λ i k. some (record { step_id = i; kind = k; resume_data = v })) id kind) in
      rw resumed (refl, refl, refl, refl)

module _ {V W R : Type 0} (json : EventJson V R) (optional : Bool) (id name : Text)
    (filter : EventFilter V) where
  wait_at_yields :
      (f : Frame V W) (info : YieldInfo V)
      → (wait_at json optional id name filter f).0 ≡ panicked info
      → (info.step_id ≡ id)
        × (info.kind ≡ codes "wait_for_event")
        × (completed_row (lookup id f.exec.completed_steps) ≡ false)
  unfolding wait_at suspend_wait new_wait_event_yield decode_wait_result
  wait_at_yields f info h = ground arith

  wait_at_resumed :
      (f : Frame V W) (v : V)
      → completed_row (lookup id f.exec.completed_steps) ≡ false
      → f.exec.resume_context
        ≡ some (record { step_id = id; kind = codes "wait_for_event"; resume_data = some v })
      → wait_at json optional id name filter f
        ≡ (decode_wait_result json optional id name (some v), (mark_resume_handled f).1)
  unfolding wait_at mark_resume_handled
  wait_at_resumed f v open_row resumed =
      rw (open_row, wait_at, running)
        (rw (resumed, wait_at, running)
          (rw text_eq_refl (rw (text_eq_refl (codes "wait_for_event")))))

-- The frame in which the scope was marked as used.
abbrev used : {V W : Type 0} → Frame V W → Frame V W
used f = record f { scope = scoped f.scope }

module _ {V W R : Type 0} (cancellation_err : W → Option (Err V)) (json : EventJson V R)
    (optional : Bool) (name : Text) (filter : EventFilter V) where
  wait-live :
      (f : Frame V W)
      → cancellation_err f.world ≡ none
      → wait_for_event_impl cancellation_err json optional name filter f
        ≡ wait_at json optional
            (claimed (generate_step_id name (used f)).0)
            name
            filter
            (generate_step_id name (used f)).1
  unfolding wait_for_event_impl
  wait-live f live =
      rw (live, wait_for_event_impl, running)
        (rw (generate-claims name f.exec (scoped f.scope) f.world, running))

  wait_live_of_yield :
      (f : Frame V W) (info : YieldInfo V)
      → (wait_for_event_impl cancellation_err json optional name filter f).0 ≡ panicked info
      → cancellation_err f.world ≡ none
  unfolding wait_for_event_impl
  wait_live_of_yield f info h = elim (Option-cases (cancellation_err f.world)) [
    | inl live ↦ live
    | inr (e, cancelled) ↦
        (let h' : errored e ≡ panicked info = rw (cancelled, wait_for_event_impl, running) at h in
          cc)
  ]

  -- `WaitForEvent` (and the optional form) that suspended the run answers, in the invocation that
  -- is resumed from it with data, with the same counters and rows and not cancelled, with what that
  -- data decodes to under the step's id: at the root and in a branch.
  pub wait_resumes :
      (f : Frame V W) (info : YieldInfo V) (v : V) (w : W)
      → (wait_for_event_impl cancellation_err json optional name filter f).0 ≡ panicked info
      → cancellation_err w ≡ none
      → let after =
          wait_for_event_impl cancellation_err json optional name filter
            (resumed_from info (some v) w f) in
        (after.0 ≡ decode_wait_result json optional info.step_id name (some v))
        × (after.1.exec.resume_handled ≡ true)
        × (after.1.exec.executed_steps ≡ f.exec.executed_steps)
        × (after.1.world ≡ w)
  unfolding mark_resume_handled
  wait_resumes f info v w yields live =
      let live_f = wait_live_of_yield f info yields in
      let (id, kind, open_row) =
        wait_at_yields json optional (claimed (generate_step_id name (used f)).0) name filter
          (generate_step_id name (used f)).1 info
          (ap (λ p. p.0) (sym (wait-live f live_f)) ∙ yields) in
      let g = resumed_from info (some v) w f in
      let at_g = rows-generate name g.exec (scoped g.scope) w in
      let at_f = rows-generate name f.exec (scoped f.scope) f.world in
      let same : claimed (generate_step_id name (used g)).0 ≡ info.step_id =
        ap claimed (generate-resume name f.exec g.exec.resume_context (scoped f.scope) w f.world)
        ∙ sym id in
      let resumed =
        wait-live g live
        ∙ wait_at_resumed json optional (claimed (generate_step_id name (used g)).0) name filter
            (generate_step_id name (used g)).1 v (rw (at_g.0, same, id) (rw at_f.0 at open_row))
            (at_g.2
              ∙ ap₂ (λ i k. some (record { step_id = i; kind = k; resume_data = some v }))
                  (sym same) kind) in
      rw resumed
        (ap (λ i. decode_wait_result json optional i name (some v)) same, refl, at_g.1, at_g.3)
