-- ===== src/Parallel/Warning.antt =====
-- The warning of ironflow/parallel.go and ironflow/step.go on a fan-out whose branches do not use the
-- scope they were handed: `warnUnscopedBranches`, `enclosingClaimsFor` and `shouldWarnUnscoped`.
use ironflow_go.Prelude.{
  ℕ, ◌+◌, ◌-◌, ◌≡◌, refl, ◌⊎◌, inl, inr, Option, none, some, List, [], ◌∷◌, Text, Bool, true, false,
  not, Bool-cases, ltb, ◌==◌, ◌&&◌, ◌||◌, if◌then◌else◌, text_eq, text_eq_refl, length,
}
use ironflow_go.Errors.{Err}
use ironflow_go.Exec.{BranchContext, ExecutionContext}

pub data UnscopedWarning : Type 0 where
  claimed_outside : Text → ℕ → UnscopedWarning
  all_inert : Text → ℕ → UnscopedWarning

abbrev pub warned : Text → List Text → Bool
warned name [] = false
warned name (n ∷ names) = text_eq name n || warned name names

-- A branch that did not use its scope and ended without an error.
abbrev pub unscoped : {V : Type 0} → BranchContext → Option (Err V) → ℕ
unscoped b none = if b.scoped_client_used then 0 else 1
unscoped b (some e) = 0

unfoldable pub count_unscoped : {V : Type 0} → List BranchContext → List (Option (Err V)) → ℕ
count_unscoped [] errs = 0
count_unscoped (b ∷ branches) [] = 0
count_unscoped (b ∷ branches) (e ∷ errs) = unscoped b e + count_unscoped branches errs

module _ {V W : Type 0} where
  -- The first warning for a name in this run is recorded.
  unfoldable pub should_warn_unscoped : Text → ExecutionContext V W → Bool × ExecutionContext V W
  should_warn_unscoped name c =
      if warned name c.warned_unscoped
      then (false, c)
      else (true, record c { warned_unscoped = name ∷ c.warned_unscoped })

  -- Only the outermost fan-out answers for the root ids claimed since it began.
  unfoldable pub enclosing_claims_for : ℕ → ℕ → ExecutionContext V W → ℕ
  enclosing_claims_for depth claims_before c =
      if depth == 1 then c.enclosing_claims - claims_before else 0

  unfoldable pub warn_unscoped_branches :
      Bool
      → Text
      → List BranchContext
      → List (Option (Err V))
      → ℕ
      → ExecutionContext V W
      → Option UnscopedWarning × ExecutionContext V W
  unfolding should_warn_unscoped
  warn_unscoped_branches skip_check name branches errs claims c =
      let (first, c') = should_warn_unscoped name c in
      let inert = count_unscoped branches errs in
      if skip_check
      then (none, c)
      else if ltb 0 claims && first
      then (some (claimed_outside name claims), c')
      else if (inert == 0) || not (inert == length branches)
      then (none, c)
      else if first
      then (some (all_inert name inert), c')
      else (none, c)

  module _ (name : Text) (branches : List BranchContext) (errs : List (Option (Err V)))
      (claims : ℕ) where
    warned-silent :
        (skip_check : Bool) (c : ExecutionContext V W)
        → warned name c.warned_unscoped ≡ true
        → (warn_unscoped_branches skip_check name branches errs claims c).0 ≡ none
    unfolding warn_unscoped_branches should_warn_unscoped
    warned-silent true c before = refl
    warned-silent false c before =
        let inert = count_unscoped branches errs in
        elim (Bool-cases (ltb 0 claims)) [
          | inl some_claims ↦ elim (Bool-cases ((inert == 0) || not (inert == length branches))) [
            | inl mixed ↦ rw (before, some_claims, mixed) refl
            | inr all ↦ rw (before, some_claims, all) refl
          ]
          | inr no_claims ↦ elim (Bool-cases ((inert == 0) || not (inert == length branches))) [
            | inl mixed ↦ rw (before, no_claims, mixed) refl
            | inr all ↦ rw (before, no_claims, all) refl
          ]
        ]

    warn-cases :
        (skip_check : Bool) (c : ExecutionContext V W)
        → ((warn_unscoped_branches skip_check name branches errs claims c).0 ≡ none)
          ⊎ (warned name
                (warn_unscoped_branches skip_check name branches errs claims c).1.warned_unscoped
              ≡ true)
    unfolding warn_unscoped_branches should_warn_unscoped
    warn-cases true c = inl refl
    warn-cases false c = elim (Bool-cases (warned name c.warned_unscoped)) [
      | inl before ↦ inl (warned-silent false c before)
      | inr new ↦ elim (Bool-cases (ltb 0 claims)) [
        | inl some_claims ↦ rw (new, some_claims) (inr (rw (text_eq_refl name) refl))
        | inr no_claims ↦
            elim (Bool-cases (
              (count_unscoped branches errs == 0)
              || not (count_unscoped branches errs == length branches))) [
                | inl mixed ↦ rw (new, no_claims, mixed) (inl refl)
                | inr all ↦ rw (new, no_claims, all) (inr (rw (text_eq_refl name) refl))
              ]
      ]
    ]

  pub warn_unscoped_branches-fan_out_depth :
      (name : Text) (skip_check : Bool) (branches : List BranchContext)
      (errs : List (Option (Err V))) (claims : ℕ) (c : ExecutionContext V W)
      → (warn_unscoped_branches skip_check name branches errs claims c).1.fan_out_depth
        ≡ c.fan_out_depth
  unfolding warn_unscoped_branches should_warn_unscoped
  warn_unscoped_branches-fan_out_depth name true branches errs claims c = refl
  warn_unscoped_branches-fan_out_depth name false branches errs claims c =
      let mixed =
        (count_unscoped branches errs == 0)
        || not (count_unscoped branches errs == length branches) in
      elim (Bool-cases (warned name c.warned_unscoped)) [
        | inl before ↦ elim (Bool-cases (ltb 0 claims)) [
          | inl some_claims ↦ elim (Bool-cases mixed) [
            | inl m ↦ rw (before, some_claims, m) refl
            | inr m ↦ rw (before, some_claims, m) refl
          ]
          | inr no_claims ↦ elim (Bool-cases mixed) [
            | inl m ↦ rw (before, no_claims, m) refl
            | inr m ↦ rw (before, no_claims, m) refl
          ]
        ]
        | inr new ↦ elim (Bool-cases (ltb 0 claims)) [
          | inl some_claims ↦ rw (new, some_claims) refl
          | inr no_claims ↦ elim (Bool-cases mixed) [
            | inl m ↦ rw (new, no_claims, m) refl
            | inr m ↦ rw (new, no_claims, m) refl
          ]
        ]
      ]

  -- A run that has warned about a fan-out's name does not warn about that name again, whatever the
  -- branches of the next fan-out of that name do.
  pub warns_once :
      (name : Text) (skip skip' : Bool) (branches branches' : List BranchContext)
      (errs errs' : List (Option (Err V))) (claims claims' : ℕ) (c : ExecutionContext V W)
      (w : UnscopedWarning)
      → (warn_unscoped_branches skip name branches errs claims c).0 ≡ some w
      → (warn_unscoped_branches skip' name branches' errs' claims'
          (warn_unscoped_branches skip name branches errs claims c).1).0
        ≡ none
  warns_once name skip skip' branches branches' errs errs' claims claims' c w h =
      elim (warn-cases name branches errs claims skip c) [
        | inl silent ↦ cc
        | inr marked ↦ warned-silent name branches' errs' claims' skip' _ marked
      ]
