-- ===== src/Examples/Parallels.antt =====
-- Two branches with room for one.
use ironflow_go.Prelude.{
  ℕ, zero, suc, ◌+◌, ◌≡◌, refl, sym, ap, inl, inr, none, some, List, [], ◌∷◌, codes, false, arith,
  get_elem?, text_eq,
}
use ironflow_go.Exec.{BranchContext, Frame}
use ironflow_go.Parallel.{
  ParallelOptions, BranchAnswer, gives, gave, FanOut, fan_out, enter, leave, count_running,
  settle_slots, first_yield, first_error,
}
use ironflow_go.Parallel.Schedule.{
  Reaches, at_start, then_move, entering, leaving, AnyCause, AnyAnswer,
}
use ironflow_go.Parallel.Progress.{can_finish}
use ironflow_go.Parallel.Slots.{IsOver, is_open}
use ironflow_go.Parallel.Returns.{returns_all_given}
use ironflow_go.Parallel.Call.{Waited}
use ironflow_go.Parallel.Warning.{
  warn_unscoped_branches, should_warn_unscoped, count_unscoped, all_inert,
}
use ironflow_go.Examples.Fixtures.{first_branch, new_context}
use ironflow_go.Parallel.Agrees.{answered, NotCancelled, Answers, schedule_independent}

abbrev one_at_a_time : ParallelOptions
one_at_a_time = record { concurrency = 1; on_error = codes "failFast" }

abbrev unbounded : ParallelOptions
unbounded = record { concurrency = 0; on_error = codes "failFast" }

abbrev doubled : ℕ → BranchAnswer ℕ ℕ
doubled i = gives (i + i)

abbrev only : FanOut ℕ ℕ
only = fan_out 1

abbrev one_runs : FanOut ℕ ℕ
one_runs = enter one_at_a_time none 0 only

abbrev one_over : FanOut ℕ ℕ
one_over = leave one_at_a_time 0 (gives 7) one_runs

Reaches-one_runs : Reaches one_at_a_time AnyCause AnyAnswer only one_runs
unfolding count_running
Reaches-one_runs = then_move at_start (entering 0 none tt refl (inr (omega arith)))

Reaches-one_over : Reaches one_at_a_time AnyCause AnyAnswer only one_over
Reaches-one_over = then_move Reaches-one_runs (leaving 0 (gives 7) tt refl)

one-IsOver : IsOver one_over
one-IsOver zero s at = let same : gave 7 ≡ s = cc in sym (ap is_open same)
one-IsOver (suc j) s at = cc

returns_all_given_example :
    (r : ℕ) × (get_elem? one_over.slots 0 ≡ some (gave r))
    × (get_elem? (some 7 ∷ []) 0 ≡ some (some r))
unfolding settle_slots first_yield first_error text_eq
returns_all_given_example =
    returns_all_given one_at_a_time 1 (some 7 ∷ []) Reaches-one_over refl one-IsOver refl 0
      (omega arith)

abbrev one_doubled : FanOut ℕ ℕ
one_doubled = leave unbounded 0 (doubled 0) (enter unbounded none 0 only)

Reaches-doubled : Reaches unbounded NotCancelled (Answers doubled) only one_doubled
Reaches-doubled =
    then_move (then_move at_start (entering 0 none refl refl (inl refl)))
      (leaving 0 (doubled 0) refl refl)

doubled-IsOver : IsOver one_doubled
doubled-IsOver zero s at = let same : gave 0 ≡ s = cc in sym (ap is_open same)
doubled-IsOver (suc j) s at = cc

schedule_independent_example :
    settle_slots unbounded one_doubled.slots ≡ settle_slots unbounded (answered doubled 1 0)
schedule_independent_example =
    schedule_independent unbounded doubled 1 refl Reaches-doubled doubled-IsOver

-- A fan-out of one branch that ignores its scope, with the warning it logs.
abbrev lone_branch : List BranchContext
lone_branch = first_branch ∷ []

ignored_scope :
    (warn_unscoped_branches false (codes "a") lone_branch (none ∷ []) 0 new_context).0
    ≡ some (all_inert (codes "a") 1)
unfolding warn_unscoped_branches should_warn_unscoped count_unscoped text_eq
ignored_scope = refl

-- A schedule in which the one branch gives 7 and counts in the world.
abbrev seven_given : List BranchContext → Frame ℕ ℕ → Waited ℕ ℕ ℕ
seven_given branches f = record {
  slots = gave 7 ∷ [];
  branches = branches;
  frame = record f { world = f.world + 1 };
}

can_finish_example :
    (g : FanOut ℕ ℕ) × Reaches one_at_a_time NotCancelled (Answers doubled) (fan_out 3) g × IsOver g
can_finish_example = can_finish one_at_a_time doubled (fan_out 3)
