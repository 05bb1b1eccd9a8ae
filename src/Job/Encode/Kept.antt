-- ===== src/Job/Encode/Kept.antt =====
-- The kept steps are the longest prefix that encodes.
use ironflow_go.Prelude.{
  ℕ, zero, suc, ◌≡◌, refl, ap, ◌⊎◌, inl, inr, Option, none, some, Option-cases, List, [], ◌∷◌, ◌++◌,
  All, Text, drop, false, subst,
}
use ironflow_go.Exec.{StepResult}
use ironflow_go.Job.Encode.{
  Encoder, PushError, encodable_steps, encode_failure, code_serialization_error,
}

module _ {V : Type 0} (encoder : Encoder V) where
  abbrev pub Encodes : StepResult V → Type 0
  Encodes s = encoder.step_error s ≡ none

  pub kept_encode : (steps : List (StepResult V)) → All Encodes (encodable_steps encoder steps).0
  unfolding encodable_steps
  kept_encode [] = tt
  kept_encode (s ∷ steps) = elim (Option-cases (encoder.step_error s)) [
    | inl fine ↦ rw (fine, encodable_steps) (fine, kept_encode steps)
    | inr (m, bad) ↦ rw (bad, encodable_steps) tt
  ]

  -- Without an error all steps are kept, so all encode.
  pub all_kept :
      (steps : List (StepResult V))
      → (encodable_steps encoder steps).1 ≡ none
      → (encodable_steps encoder steps).0 ≡ steps
  unfolding encodable_steps
  all_kept [] h = refl
  all_kept (s ∷ steps) h = elim (Option-cases (encoder.step_error s)) [
    | inl fine ↦
        rw (fine, encodable_steps)
          (ap (λ t. s ∷ t) (all_kept steps (rw (fine, encodable_steps) at h)))
    | inr (m, bad) ↦ cc (rw (bad, encodable_steps) at h)
  ]

  -- The steps are split at the first that does not encode, if there is one; the error then is not
  -- retryable and names that step.
  pub encodable_steps_split :
      (steps : List (StepResult V))
      → ((encodable_steps encoder steps).1 ≡ none) × ((encodable_steps encoder steps).0 ≡ steps)
        ⊎ ((bad : StepResult V) × (rest : List (StepResult V)) × (e : PushError) × (m : Text)
            × (steps ≡ (encodable_steps encoder steps).0 ++ bad ∷ rest)
            × ((encodable_steps encoder steps).1 ≡ some e)
            × (encoder.step_error bad ≡ some m)
            × (e.step_id ≡ bad.id)
            × (e.retryable ≡ false)
            × (e.code ≡ code_serialization_error))
  unfolding encodable_steps
  encodable_steps_split [] = inl (refl, refl)
  encodable_steps_split (s ∷ steps) = elim (Option-cases (encoder.step_error s)) [
    | inr (m, bad) ↦
        rw (bad, encodable_steps) (inr (s, steps, _, m, refl, refl, bad, refl, refl, refl))
    | inl fine ↦
        rw (fine, encodable_steps)
          (elim (encodable_steps_split steps) [
            | inl (e, same) ↦ inl (e, ap (λ t. s ∷ t) same)
            | inr (b, rest, e, m, split, failed, bad, id, final, code) ↦
                inr (b, rest, e, m, ap (λ t. s ∷ t) split, failed, bad, id, final, code)
          ])
  ]

  pub All-drop :
      (n : ℕ) (steps : List (StepResult V)) → All Encodes steps → All Encodes (drop n steps)
  All-drop zero steps h = h
  All-drop (suc n) [] h = tt
  All-drop (suc n) (s ∷ steps) h = All-drop n steps h.1

  abbrev pub AllEncode : Option V → List (StepResult V) → Type 0
  AllEncode result steps = (encoder.result_error result ≡ none) × All Encodes steps

  -- Either the result and all steps encode, or there is a failure with the serialization code.
  pub encode_failure-cases :
      (result : Option V) (steps : List (StepResult V))
      → ((encode_failure encoder result steps).0 ≡ none) × AllEncode result steps
        ⊎ ((e : PushError) × ((encode_failure encoder result steps).0 ≡ some e)
            × (e.code ≡ code_serialization_error))
  unfolding encode_failure
  encode_failure-cases result steps = elim (encodable_steps_split steps) [
    | inr (bad, rest, e, m, split, failed, at, id, final, code) ↦
        rw (failed, encode_failure) (inr (e, refl, code))
    | inl (fine, same) ↦ elim (Option-cases (encoder.result_error result)) [
      | inl good ↦
          rw (fine, good, encode_failure)
            (inl (refl, (refl, subst (All Encodes) same (kept_encode steps))))
      | inr (m, bad) ↦ rw (fine, bad, encode_failure) (inr (_, refl, refl))
    ]
  ]
