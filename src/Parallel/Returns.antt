-- ===== src/Parallel/Returns.antt =====
-- A fan-out that returns its results has run every branch.
use ironflow_go.Prelude.{
  ◌<◌, length, ℕ, ◌≡◌, ◌≢◌, refl, sym, ap, ◌∙◌, ◌⊎◌, inl, inr, Option, none, some, List, Bool, true,
  false, Bool-cases, arith, get_elem?, set, ltb, ◌||◌, text_eq, codes,
}
use mathlib.Core.Bool.{false≢true}
use ironflow_go.Errors.{Err}
use ironflow_go.Exec.{returned}
use ironflow_go.Parallel.{
  ParallelOptions, BranchAnswer, Slot, waiting, running, skipped, gave, FanOut, fan_out, entered,
  slot_of, gives, fails, yields, cancels, settle_slots,
}
use ironflow_go.Parallel.Schedule.{
  Move, entering, leaving, Reaches, at_start, then_move, AnyCause, AnyAnswer,
}
use ironflow_go.Parallel.Slots.{
  Ends, IsOver, get_elem?-set, get_elem?-set_ne, ==_cases, Ends-set, none_skipped, length-waiting,
  length-set, get_elem?-lt, get_elem?-result_of, first_yield-none, first_error-none,
  settle_slots-returned, Ends-settle, given_of,
}

module _ {V R : Type 0} where
  entered-skipped :
      (options : ParallelOptions) (cause : Option (Err V)) (cancelled : Bool)
      → entered {R = R} options cause cancelled ≡ skipped
      → cancelled ≡ true
  entered-skipped options cause true e = refl
  entered-skipped options none false e = elim (Bool-cases (ltb 0 options.concurrency)) [
    | inl limited ↦ cc (rw (limited) at e)
    | inr unlimited ↦ cc (rw (unlimited) at e)
  ]
  entered-skipped options (some cause) false e = elim (Bool-cases (ltb 0 options.concurrency)) [
    | inl limited ↦ cc (rw (limited) at e)
    | inr unlimited ↦ cc (rw (unlimited) at e)
  ]

  slot_of_ne_skipped : (answer : BranchAnswer V R) → slot_of answer ≢ skipped
  slot_of_ne_skipped (gives r) e = cc
  slot_of_ne_skipped (fails err) e = cc
  slot_of_ne_skipped (yields info) e = cc

-- A cancelled fan-out has a branch that ends it, and only a cancelled one has skipped a branch.
abbrev SkipsLate : {V R : Type 0} → FanOut V R → Type 0
SkipsLate f =
    (f.cancelled ≡ true → Ends f.slots)
    × ((j : ℕ) → get_elem? f.slots j ≡ some skipped → f.cancelled ≡ true)

module _ {V R : Type 0} (options : ParallelOptions) where
  length-Move :
      {f g : FanOut V R} → Move options AnyCause AnyAnswer f g → length g.slots ≡ length f.slots
  length-Move (entering {f = f} i cause ok at room) = length-set f.slots i _
  length-Move (leaving {f = f} i answer ok at) = length-set f.slots i _

  skipped-set :
      (slots : List (Slot V R)) (i j : ℕ) (old new : Slot V R)
      → get_elem? slots i ≡ some old
      → get_elem? (set slots i new) j ≡ some skipped
      → (new ≡ skipped) ⊎ (get_elem? slots j ≡ some skipped)
  skipped-set slots i j old new at late = elim (==_cases i j) [
    | inl e ↦
        let new_at : get_elem? (set slots i new) j ≡ some new =
          ap (λ k. get_elem? (set slots i new) k) (sym e) ∙ get_elem?-set slots i old new at in
        inl cc
    | inr ne ↦ inr (sym (get_elem?-set_ne slots i j new ne) ∙ late)
  ]

  leave-Ends :
      (f : FanOut V R) (i : ℕ) (answer : BranchAnswer V R)
      → get_elem? f.slots i ≡ some running
      → (f.cancelled ≡ true → Ends f.slots)
      → (f.cancelled || cancels options answer) ≡ true
      → Ends (set f.slots i (slot_of answer))
  leave-Ends f i (fails e) at ends now = (i, inr (e, get_elem?-set f.slots i running _ at))
  leave-Ends f i (yields info) at ends now = (i, inl (info, get_elem?-set f.slots i running _ at))
  leave-Ends f i (gives r) at ends now = elim (Bool-cases f.cancelled) [
    | inl before ↦ Ends-set f.slots i running (gave r) at refl (ends before)
    | inr before ↦ absurd (false≢true (rw (before) at now))
  ]

  Move-SkipsLate :
      {f g : FanOut V R} → Move options AnyCause AnyAnswer f g → SkipsLate f → SkipsLate g
  Move-SkipsLate (entering {f = f} i cause ok at room) (ends, late) = (
    λ now. Ends-set f.slots i waiting _ at refl (ends now),
    λ j skips. elim (skipped-set f.slots i j waiting _ at skips) [
      | inl new ↦ entered-skipped {R = R} options cause f.cancelled new
      | inr old ↦ late j old
    ],
  )
  Move-SkipsLate (leaving {f = f} i answer ok at) (ends, late) = (
    leave-Ends f i answer at ends,
    λ j skips. elim (skipped-set f.slots i j running _ at skips) [
      | inl new ↦ absurd (slot_of_ne_skipped answer new)
      | inr old ↦ rw (late j old) refl
    ],
  )

  Reaches-SkipsLate :
      (n : ℕ) {f : FanOut V R}
      → Reaches options AnyCause AnyAnswer (fan_out n) f
      → SkipsLate f × (length f.slots ≡ n)
  Reaches-SkipsLate n at_start = (
    (λ now. absurd (false≢true now), λ j skips. absurd (none_skipped V R n j skips)),
    length-waiting V R n,
  )
  Reaches-SkipsLate n (then_move {g = g} before move) =
      let (late, long) = Reaches-SkipsLate n before in
      (Move-SkipsLate move late, length-Move move ∙ long)

  -- Under "failFast", or whatever is not "allSettled": a fan-out whose branches are all over and that
  -- returns results has run each of its branches to a value, and returns these values by index. So
  -- no branch that was skipped leaves a zero value among the results.
  pub returns_all_given :
      (n : ℕ) {f : FanOut V R} (results : List (Option R))
      → Reaches options AnyCause AnyAnswer (fan_out n) f
      → text_eq options.on_error (codes "allSettled") ≡ false
      → IsOver f
      → settle_slots options f.slots ≡ returned results
      → (j : ℕ) → j < n
      → (r : R) × (get_elem? f.slots j ≡ some (gave r)) × (get_elem? results j ≡ some (some r))
  returns_all_given n {f = f} results reached strict over answer j below =
      let ((ends, late), long) = Reaches-SkipsLate n reached in
      let (no_yield, no_error, same) =
        settle_slots-returned options f.slots results strict answer in
      let (s, at) = get_elem?-lt f.slots j (omega (arith, below, long)) in
      let (r, gives_r) =
        given_of s (over j s at)
          (λ info e. first_yield-none f.slots j info no_yield (at ∙ ap some e))
          (λ err e. first_error-none f.slots j err no_error (at ∙ ap some e))
          (λ e. Ends-settle f.slots no_yield no_error (ends (late j (at ∙ ap some e)))) in
      let there = at ∙ ap some gives_r in
      (r, there, ap (λ t. get_elem? t j) same ∙ get_elem?-result_of f.slots j r there)
