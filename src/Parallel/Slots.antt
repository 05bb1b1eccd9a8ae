-- ===== src/Parallel/Slots.antt =====
-- The slots of a fan-out's branches: reading and writing one, and what the call makes of all.
use ironflow_go.Prelude.{
  ◌<◌, length, ℕ, zero, suc, ◌≡◌, ◌≢◌, refl, sym, ap, ◌∙◌, ◌⊎◌, inl, inr, Option, none, some, List,
  [], ◌∷◌, Bool, true, false, Bool-cases, Option-cases, arith, get_elem?, set, replicate, map,
  text_eq, codes, ◌==◌, ==_iff,
}
use mathlib.Core.Bool.{false≢true}
use ironflow_go.Errors.{Err, YieldInfo}
use ironflow_go.Exec.{returned}
use ironflow_go.Parallel.{
  ParallelOptions, Slot, waiting, running, skipped, gave, had_error, had_yield, FanOut, first_yield,
  first_error, result_of, settle_slots,
}

-- A branch that makes the call end in a panic or an error.
abbrev pub Ends : {V R : Type 0} → List (Slot V R) → Type 0
Ends {V} slots =
    (j : ℕ) × (((info : YieldInfo V) × (get_elem? slots j ≡ some (had_yield info)))
      ⊎ ((e : Err V) × (get_elem? slots j ≡ some (had_error e))))

pub ==_cases : (i j : ℕ) → (i ≡ j) ⊎ (i ≢ j)
==_cases i j = elim (Bool-cases (i == j)) [
  | inl same ↦ inl ((==_iff i j).0 same)
  | inr differ ↦ inr (λ e. false≢true (sym differ ∙ (==_iff i j).1 e))
]

-- A branch that has not written its answer.
abbrev pub is_open : {V R : Type 0} → Slot V R → Bool
is_open waiting = true
is_open running = true
is_open _ = false

module _ {V R : Type 0} where
  pub get_elem?-set :
      (slots : List (Slot V R)) (i : ℕ) (old new : Slot V R)
      → get_elem? slots i ≡ some old
      → get_elem? (set slots i new) i ≡ some new
  get_elem?-set [] i old new at = cc
  get_elem?-set (s ∷ slots) zero old new at = refl
  get_elem?-set (s ∷ slots) (suc i) old new at = get_elem?-set slots i old new at

  pub get_elem?-set_ne :
      (slots : List (Slot V R)) (i j : ℕ) (new : Slot V R)
      → i ≢ j
      → get_elem? (set slots i new) j ≡ get_elem? slots j
  get_elem?-set_ne [] i j new ne = refl
  get_elem?-set_ne (s ∷ slots) zero zero new ne = absurd (ne refl)
  get_elem?-set_ne (s ∷ slots) zero (suc j) new ne = refl
  get_elem?-set_ne (s ∷ slots) (suc i) zero new ne = refl
  get_elem?-set_ne (s ∷ slots) (suc i) (suc j) new ne =
      get_elem?-set_ne slots i j new (λ e. ne (ap suc e))

  pub open_ne :
      (slots : List (Slot V R)) (i j : ℕ) (old s : Slot V R)
      → get_elem? slots i ≡ some old
      → is_open old ≡ true
      → get_elem? slots j ≡ some s
      → is_open s ≡ false
      → i ≢ j
  open_ne slots i j old s at opened at' closed e =
      let there : get_elem? slots i ≡ some s = ap (λ k. get_elem? slots k) e ∙ at' in
      let same : old ≡ s = cc in false≢true (sym closed ∙ sym (ap is_open same) ∙ opened)

  pub Ends-set :
      (slots : List (Slot V R)) (i : ℕ) (old new : Slot V R)
      → get_elem? slots i ≡ some old
      → is_open old ≡ true
      → Ends slots
      → Ends (set slots i new)
  Ends-set slots i old new at opened (j, inl (info, at')) = (
    j,
    inl (
      info,
      get_elem?-set_ne slots i j new (open_ne slots i j old (had_yield info) at opened at' refl)
          ∙ at',
    ),
  )
  Ends-set slots i old new at opened (j, inr (e, at')) = (
    j,
    inr (
      e,
      get_elem?-set_ne slots i j new (open_ne slots i j old (had_error e) at opened at' refl) ∙ at',
    ),
  )

abbrev pub IsOver : {V R : Type 0} → FanOut V R → Type 0
IsOver {V} {R} f = (j : ℕ) (s : Slot V R) → get_elem? f.slots j ≡ some s → is_open s ≡ false

pub none_skipped :
    (V R : Type 0) (n j : ℕ) → get_elem? (replicate {A = Slot V R} n waiting) j ≢ some skipped
none_skipped V R zero j e = cc
none_skipped V R (suc n) zero e = cc
none_skipped V R (suc n) (suc j) e = none_skipped V R n j e

pub length-waiting : (V R : Type 0) (n : ℕ) → length (replicate {A = Slot V R} n waiting) ≡ n
length-waiting V R zero = refl
length-waiting V R (suc n) = ap suc (length-waiting V R n)

module _ {A : Type 0} where
  pub length-set : (xs : List A) (i : ℕ) (x : A) → length (set xs i x) ≡ length xs
  length-set [] i x = refl
  length-set (y ∷ xs) zero x = refl
  length-set (y ∷ xs) (suc i) x = ap suc (length-set xs i x)

  pub get_elem?-lt : (xs : List A) (j : ℕ) → j < length xs → (x : A) × (get_elem? xs j ≡ some x)
  get_elem?-lt [] j below = absurd (omega arith)
  get_elem?-lt (x ∷ xs) zero below = (x, refl)
  get_elem?-lt (x ∷ xs) (suc j) below = get_elem?-lt xs j (omega arith)

module _ {V R : Type 0} where
  pub get_elem?-result_of :
      (slots : List (Slot V R)) (j : ℕ) (r : R)
      → get_elem? slots j ≡ some (gave r)
      → get_elem? (map result_of slots) j ≡ some (some r)
  get_elem?-result_of [] j r at = cc
  get_elem?-result_of (s ∷ slots) zero r at =
      let same : s ≡ gave r = cc in ap (λ t. some (result_of t)) same
  get_elem?-result_of (s ∷ slots) (suc j) r at = get_elem?-result_of slots j r at

  pub first_yield-none :
      (slots : List (Slot V R)) (j : ℕ) (info : YieldInfo V)
      → first_yield slots ≡ none
      → get_elem? slots j ≢ some (had_yield info)
  unfolding first_yield
  first_yield-none [] j info h at = cc
  first_yield-none (waiting ∷ slots) zero info h at = cc
  first_yield-none (running ∷ slots) zero info h at = cc
  first_yield-none (skipped ∷ slots) zero info h at = cc
  first_yield-none (gave r ∷ slots) zero info h at = cc
  first_yield-none (had_error e ∷ slots) zero info h at = cc
  first_yield-none (had_yield i ∷ slots) j info h at = cc
  first_yield-none (waiting ∷ slots) (suc j) info h at = first_yield-none slots j info h at
  first_yield-none (running ∷ slots) (suc j) info h at = first_yield-none slots j info h at
  first_yield-none (skipped ∷ slots) (suc j) info h at = first_yield-none slots j info h at
  first_yield-none (gave r ∷ slots) (suc j) info h at = first_yield-none slots j info h at
  first_yield-none (had_error e ∷ slots) (suc j) info h at = first_yield-none slots j info h at

  pub first_error-none :
      (slots : List (Slot V R)) (j : ℕ) (e : Err V)
      → first_error slots ≡ none
      → get_elem? slots j ≢ some (had_error e)
  unfolding first_error
  first_error-none [] j e h at = cc
  first_error-none (waiting ∷ slots) zero e h at = cc
  first_error-none (running ∷ slots) zero e h at = cc
  first_error-none (skipped ∷ slots) zero e h at = cc
  first_error-none (gave r ∷ slots) zero e h at = cc
  first_error-none (had_error err ∷ slots) j e h at = cc
  first_error-none (had_yield i ∷ slots) zero e h at = cc
  first_error-none (waiting ∷ slots) (suc j) e h at = first_error-none slots j e h at
  first_error-none (running ∷ slots) (suc j) e h at = first_error-none slots j e h at
  first_error-none (skipped ∷ slots) (suc j) e h at = first_error-none slots j e h at
  first_error-none (gave r ∷ slots) (suc j) e h at = first_error-none slots j e h at
  first_error-none (had_yield i ∷ slots) (suc j) e h at = first_error-none slots j e h at

  pub settle_slots-returned :
      (options : ParallelOptions) (slots : List (Slot V R)) (results : List (Option R))
      → text_eq options.on_error (codes "allSettled") ≡ false
      → settle_slots options slots ≡ returned results
      → (first_yield slots ≡ none) × (first_error slots ≡ none) × (results ≡ map result_of slots)
  unfolding settle_slots
  settle_slots-returned options slots results strict answer =
      elim (Option-cases (first_yield slots)) [
        | inr (info, yielded) ↦ cc (rw (yielded, settle_slots) at answer)
        | inl no_yield ↦ elim (Option-cases (first_error slots)) [
          | inr (e, failed) ↦ cc (rw (no_yield, strict, failed, settle_slots) at answer)
          | inl no_error ↦
              let given = rw (no_yield, strict, no_error, settle_slots) at answer in
              (no_yield, no_error, cc)
        ]
      ]

  pub Ends-settle :
      (slots : List (Slot V R)) → first_yield slots ≡ none → first_error slots ≡ none → ¬ Ends slots
  Ends-settle slots no_yield no_error (j, inl (info, at)) =
      first_yield-none slots j info no_yield at
  Ends-settle slots no_yield no_error (j, inr (e, at)) = first_error-none slots j e no_error at

  pub given_of :
      (s : Slot V R)
      → is_open s ≡ false
      → ((info : YieldInfo V) → s ≢ had_yield info)
      → ((e : Err V) → s ≢ had_error e)
      → s ≢ skipped
      → (r : R) × (s ≡ gave r)
  given_of waiting over no_yield no_error ran = absurd (false≢true (sym over))
  given_of running over no_yield no_error ran = absurd (false≢true (sym over))
  given_of skipped over no_yield no_error ran = absurd (ran refl)
  given_of (gave r) over no_yield no_error ran = (r, refl)
  given_of (had_error e) over no_yield no_error ran = absurd (no_error e refl)
  given_of (had_yield info) over no_yield no_error ran = absurd (no_yield info refl)
