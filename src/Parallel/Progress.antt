-- ===== src/Parallel/Progress.antt =====
-- A fan-out whose branches answer comes to an end.
use ironflow_go.Prelude.{
  ℕ, zero, suc, ◌+◌, ◌≤◌, ◌<◌, ◌≡◌, refl, sym, ap, ◌∙◌, ◌⊎◌, inl, inr, none, some, List, [], ◌∷◌,
  Bool, false, arith, get_elem?, set, Bool-cases, ltb, ◌&&◌,
}
use ironflow_go.Parallel.{
  ParallelOptions, BranchAnswer, Slot, waiting, running, skipped, gave, had_error, had_yield,
  FanOut, weight, count_running, entered, enter, slot_of, leave, gives, fails, yields, fails_fast,
}
use ironflow_go.Parallel.Schedule.{Move, entering, leaving, Reaches, at_start, then_move, HasRoom}
use ironflow_go.Parallel.Slots.{IsOver, is_open}
use ironflow_go.Parallel.Agrees.{NotCancelled, Answers}

-- The moves that a branch has left.
abbrev pub moves_left : {V R : Type 0} → Slot V R → ℕ
moves_left waiting = 2
moves_left running = 1
moves_left _ = 0

abbrev pub all_moves_left : {V R : Type 0} → List (Slot V R) → ℕ
all_moves_left [] = 0
all_moves_left (s ∷ slots) = moves_left s + all_moves_left slots

moves_left-entered :
    (V R : Type 0) (options : ParallelOptions) (cancelled : Bool)
    → moves_left (entered {V = V} {R = R} options none cancelled) ≤ 1
moves_left-entered V R options cancelled =
    elim (Bool-cases (ltb 0 options.concurrency && (cancelled && fails_fast options))) [
      | inl skips ↦ rw (skips) (omega arith)
      | inr runs ↦ rw (runs) (omega arith)
    ]

module _ {V R : Type 0} where
  all_moves_left-set :
      (slots : List (Slot V R)) (i : ℕ) (old new : Slot V R)
      → get_elem? slots i ≡ some old
      → all_moves_left (set slots i new) + moves_left old ≡ all_moves_left slots + moves_left new
  all_moves_left-set [] i old new at = cc
  all_moves_left-set (s ∷ slots) zero old new at =
      let same : s ≡ old = cc in rw (same) (omega arith)
  all_moves_left-set (s ∷ slots) (suc i) old new at =
      omega (arith, all_moves_left-set slots i old new at)

  running-cases : (s : Slot V R) → (s ≡ running) ⊎ (weight s ≡ 0)
  running-cases running = inl refl
  running-cases waiting = inr refl
  running-cases skipped = inr refl
  running-cases (gave r) = inr refl
  running-cases (had_error e) = inr refl
  running-cases (had_yield info) = inr refl

  open-cases : (s : Slot V R) → (s ≡ waiting) ⊎ (s ≡ running) ⊎ (is_open s ≡ false)
  open-cases waiting = inl refl
  open-cases running = inr (inl refl)
  open-cases skipped = inr (inr refl)
  open-cases (gave r) = inr (inr refl)
  open-cases (had_error e) = inr (inr refl)
  open-cases (had_yield info) = inr (inr refl)

  find_running :
      (slots : List (Slot V R))
      → ((j : ℕ) × (get_elem? slots j ≡ some running)) ⊎ (count_running slots ≡ 0)
  unfolding count_running
  find_running [] = inr refl
  find_running (s ∷ slots) = elim (running-cases s) [
    | inl now ↦ inl (0, ap some now)
    | inr light ↦ elim (find_running slots) [
      | inl (j, at) ↦ inl (suc j, at)
      | inr nobody ↦ inr (omega (arith, light, nobody))
    ]
  ]

  find_open :
      (slots : List (Slot V R))
      → ((j : ℕ) × (get_elem? slots j ≡ some waiting))
        ⊎ ((j : ℕ) × (get_elem? slots j ≡ some running))
        ⊎ ((j : ℕ) (s : Slot V R) → get_elem? slots j ≡ some s → is_open s ≡ false)
  find_open [] = inr (inr (λ j s at. cc))
  find_open (s ∷ slots) = elim (open-cases s) [
    | inl now ↦ inl (0, ap some now)
    | inr (inl now) ↦ inr (inl (0, ap some now))
    | inr (inr closed) ↦ elim (find_open slots) [
      | inl (j, at) ↦ inl (suc j, at)
      | inr (inl (j, at)) ↦ inr (inl (suc j, at))
      | inr (inr over) ↦ inr (inr (closed-over s slots closed over))
    ]
  ]
    where
      closed-over :
          (s : Slot V R) (slots : List (Slot V R))
          → is_open s ≡ false
          → ((j : ℕ) (t : Slot V R) → get_elem? slots j ≡ some t → is_open t ≡ false)
          → (j : ℕ) (t : Slot V R) → get_elem? (s ∷ slots) j ≡ some t
          → is_open t ≡ false
      closed-over s slots closed over zero t at =
          let same : s ≡ t = cc in sym (ap is_open same) ∙ closed
      closed-over s slots closed over (suc j) t at = over j t at

  moves_left-slot_of : (answer : BranchAnswer V R) → moves_left (slot_of answer) ≡ 0
  moves_left-slot_of (gives r) = refl
  moves_left-slot_of (fails e) = refl
  moves_left-slot_of (yields info) = refl

module _ {V R : Type 0} (options : ParallelOptions) (answers : ℕ → BranchAnswer V R) where
  leave_now :
      (f : FanOut V R) (j : ℕ)
      → get_elem? f.slots j ≡ some running
      → (g : FanOut V R) × Move options NotCancelled (Answers answers) f g
        × (all_moves_left g.slots < all_moves_left f.slots)
  leave_now f j at = (
    leave options j (answers j) f,
    leaving j (answers j) refl at,
    omega (
      arith,
      all_moves_left-set f.slots j running (slot_of (answers j)) at,
      moves_left-slot_of (answers j),
    ),
  )

  enter_now :
      (f : FanOut V R) (j : ℕ)
      → get_elem? f.slots j ≡ some waiting
      → HasRoom options f
      → (g : FanOut V R) × Move options NotCancelled (Answers answers) f g
        × (all_moves_left g.slots < all_moves_left f.slots)
  enter_now f j at room = (
    enter options none j f,
    entering j none refl at room,
    omega (
      arith,
      all_moves_left-set f.slots j waiting (entered options none f.cancelled) at,
      moves_left-entered V R options f.cancelled,
    ),
  )

  room-free : (f : FanOut V R) → count_running f.slots ≡ 0 → HasRoom options f
  room-free f nobody = ground arith

  IsOver-or-Move :
      (f : FanOut V R)
      → IsOver f
        ⊎ ((g : FanOut V R) × Move options NotCancelled (Answers answers) f g
            × (all_moves_left g.slots < all_moves_left f.slots))
  IsOver-or-Move f = elim (find_running f.slots) [
    | inl (j, at) ↦ inr (leave_now f j at)
    | inr nobody ↦ elim (find_open f.slots) [
      | inl (j, at) ↦ inr (enter_now f j at (room-free f nobody))
      | inr (inl (j, at)) ↦ inr (leave_now f j at)
      | inr (inr over) ↦ inl over
    ]
  ]

  Reaches-from :
      {f g h : FanOut V R}
      → Move options NotCancelled (Answers answers) f g
      → Reaches options NotCancelled (Answers answers) g h
      → Reaches options NotCancelled (Answers answers) f h
  Reaches-from move at_start = then_move at_start move
  Reaches-from move (then_move before last) = then_move (Reaches-from move before) last

  finish_in :
      (n : ℕ) (f : FanOut V R)
      → all_moves_left f.slots ≤ n
      → (g : FanOut V R) × Reaches options NotCancelled (Answers answers) f g × IsOver g
  finish_in zero f few = elim (IsOver-or-Move f) [
    | inl over ↦ (f, at_start, over)
    | inr (g, move, fewer) ↦ absurd (omega arith)
  ]
  finish_in (suc n) f few = elim (IsOver-or-Move f) [
    | inl over ↦ (f, at_start, over)
    | inr (g, move, fewer) ↦
        let (h, reached, over) = finish_in n g (omega arith) in (h, Reaches-from move reached, over)
  ]

  -- Where every callback answers and the worker is not cancelled, a fan-out is never stuck, whatever
  -- its bound and its policy are: from each state in which it may be there is a schedule after which
  -- all branches are over.
  pub can_finish :
      (f : FanOut V R)
      → (g : FanOut V R) × Reaches options NotCancelled (Answers answers) f g × IsOver g
  can_finish f = finish_in (all_moves_left f.slots) f (omega arith)
