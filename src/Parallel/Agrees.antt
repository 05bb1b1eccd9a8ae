-- ===== src/Parallel/Agrees.antt =====
-- Without a bound on the branches the answer of a fan-out does not depend on the schedule.
use ironflow_go.Prelude.{
  ℕ, zero, suc, ◌+◌, ◌≡◌, refl, sym, ap, ◌∙◌, subst, ◌⊎◌, inl, inr, Option, none, some, List, [],
  ◌∷◌, Bool, true, arith, get_elem?, set, replicate, length,
}
use mathlib.Core.Bool.{false≢true}
use ironflow_go.Errors.{Err}
use ironflow_go.Parallel.{
  ParallelOptions, BranchAnswer, Slot, waiting, running, FanOut, fan_out, entered, slot_of,
  settle_slots,
}
use ironflow_go.Parallel.Schedule.{entering, leaving, Reaches, at_start, then_move}
use ironflow_go.Parallel.Slots.{
  IsOver, is_open, get_elem?-set, get_elem?-set_ne, ==_cases, length-set, length-waiting,
}

-- What the branches from `k` on leave when each has answered.
abbrev pub answered : {V R : Type 0} → (ℕ → BranchAnswer V R) → ℕ → ℕ → List (Slot V R)
answered answers zero k = []
answered answers (suc n) k = slot_of (answers k) ∷ answered answers n (suc k)

abbrev pub NotCancelled : {V : Type 0} → Option (Err V) → Type 0
NotCancelled cause = cause ≡ none

abbrev pub Answers : {V R : Type 0} → (ℕ → BranchAnswer V R) → ℕ → BranchAnswer V R → Type 0
Answers answers i answer = answer ≡ answers i

module _ {V R : Type 0} (options : ParallelOptions) (answers : ℕ → BranchAnswer V R) where
  abbrev Fits : FanOut V R → Type 0
  Fits f =
      (j : ℕ) (s : Slot V R)
      → get_elem? f.slots j ≡ some s
      → (is_open s ≡ true) ⊎ (s ≡ slot_of (answers j))

  Fits-set :
      (f : FanOut V R) (i : ℕ) (old new : Slot V R)
      → get_elem? f.slots i ≡ some old
      → (is_open new ≡ true) ⊎ (new ≡ slot_of (answers i))
      → Fits f
      → (j : ℕ) (s : Slot V R) → get_elem? (set f.slots i new) j ≡ some s
      → (is_open s ≡ true) ⊎ (s ≡ slot_of (answers j))
  Fits-set f i old new at fine fits j s now = elim (==_cases i j) [
    | inr ne ↦ fits j s (sym (get_elem?-set_ne f.slots i j new ne) ∙ now)
    | inl e ↦
        let new_at : get_elem? (set f.slots i new) j ≡ some new =
          ap (λ k. get_elem? (set f.slots i new) k) (sym e) ∙ get_elem?-set f.slots i old new at in
        let same : new ≡ s = cc in
        subst (λ t. (is_open t ≡ true) ⊎ (t ≡ slot_of (answers j))) same
          (subst (λ k. (is_open new ≡ true) ⊎ (new ≡ slot_of (answers k))) e fine)
  ]

  entered-running :
      (cancelled : Bool)
      → options.concurrency ≡ 0
      → entered {V = V} {R = R} options none cancelled ≡ running
  entered-running cancelled unlimited = rw (unlimited) refl

  Fits-waiting :
      (n j : ℕ) (s : Slot V R)
      → get_elem? (replicate {A = Slot V R} n waiting) j ≡ some s
      → is_open s ≡ true
  Fits-waiting zero j s at = cc
  Fits-waiting (suc n) zero s at = let same : waiting ≡ s = cc in sym (ap is_open same)
  Fits-waiting (suc n) (suc j) s at = Fits-waiting n j s at

  Reaches-Fits :
      (n : ℕ) {f : FanOut V R}
      → options.concurrency ≡ 0
      → Reaches options NotCancelled (Answers answers) (fan_out n) f
      → Fits f × (length f.slots ≡ n)
  Reaches-Fits n unlimited at_start =
      ((λ j s at. inl (Fits-waiting n j s at)), length-waiting V R n)
  Reaches-Fits n unlimited (then_move {g = g} before (entering i cause live at room)) =
      let (fits, long) = Reaches-Fits n unlimited before in
      let runs : entered {V = V} {R = R} options cause g.cancelled ≡ running =
        rw (live) (entered-running g.cancelled unlimited) in
      (Fits-set g i waiting _ at (inl (ap is_open runs)) fits, length-set g.slots i _ ∙ long)
  Reaches-Fits n unlimited (then_move {g = g} before (leaving i answer same at)) =
      let (fits, long) = Reaches-Fits n unlimited before in
      (Fits-set g i running _ at (inr (ap slot_of same)) fits, length-set g.slots i _ ∙ long)

  slots-answered :
      (slots : List (Slot V R)) (k : ℕ)
      → ((j : ℕ) (s : Slot V R) → get_elem? slots j ≡ some s → s ≡ slot_of (answers (k + j)))
      → slots ≡ answered answers (length slots) k
  slots-answered [] k h = refl
  slots-answered (s ∷ slots) k h =
      let first : s ≡ slot_of (answers k) =
        h 0 s refl ∙ ap (λ m. slot_of (answers m)) (omega arith) in
      let rest =
        slots-answered slots (suc k)
          (λ j t at. h (suc j) t at ∙ ap (λ m. slot_of (answers m)) (omega arith)) in
      cc

  -- Where the fan-out has no bound, the worker is not cancelled, and each branch answers the same
  -- whenever it runs: when all branches are over, the call answers with what these answers settle to,
  -- whatever the schedule was.
  pub schedule_independent :
      (n : ℕ) {f : FanOut V R}
      → options.concurrency ≡ 0
      → Reaches options NotCancelled (Answers answers) (fan_out n) f
      → IsOver f
      → settle_slots options f.slots ≡ settle_slots options (answered answers n 0)
  schedule_independent n {f = f} unlimited reached over =
      let (fits, long) = Reaches-Fits n unlimited reached in
      ap (settle_slots options) (
        slots-answered f.slots 0 (λ j s at. elim (fits j s at) [
          | inl opened ↦ absurd (false≢true (sym (over j s at) ∙ opened))
          | inr same ↦ same ∙ ap (λ m. slot_of (answers m)) (omega arith)
        ])
        ∙ ap (λ m. answered answers m 0) long)
