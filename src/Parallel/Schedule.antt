-- ===== src/Parallel/Schedule.antt =====
-- The schedules of a fan-out, and the bound on the branches that run at once.
use ironflow_go.Prelude.{ℕ, ◌<◌, ◌≡◌, ◌⊎◌, Option, some, get_elem?}
use ironflow_go.Errors.{Err}
use ironflow_go.Parallel.{
  ParallelOptions, BranchAnswer, waiting, running, FanOut, count_running, enter, leave,
}

-- A place is free where there is no semaphore, or where fewer branches hold it than it allows.
abbrev pub HasRoom : {V R : Type 0} → ParallelOptions → FanOut V R → Type 0
HasRoom options f = (options.concurrency ≡ 0) ⊎ (count_running f.slots < options.concurrency)

-- One move of one branch. What the worker's context says when a branch enters, and what a branch
-- answers with, are limited to what `may_cancel` and `may_answer` allow.
pub data Move {V R : Type 0} (options : ParallelOptions) (may_cancel : Option (Err V) → Type 0)
    (may_answer : ℕ → BranchAnswer V R → Type 0) : FanOut V R → FanOut V R → Type 0 where
  entering :
      {f : FanOut V R} (i : ℕ) (cause : Option (Err V))
      → may_cancel cause
      → get_elem? f.slots i ≡ some waiting
      → HasRoom options f
      → Move options may_cancel may_answer f (enter options cause i f)
  leaving :
      {f : FanOut V R} (i : ℕ) (answer : BranchAnswer V R)
      → may_answer i answer
      → get_elem? f.slots i ≡ some running
      → Move options may_cancel may_answer f (leave options i answer f)

pub data Reaches {V R : Type 0} (options : ParallelOptions) (may_cancel : Option (Err V) → Type 0)
    (may_answer : ℕ → BranchAnswer V R → Type 0) (f : FanOut V R) : FanOut V R → Type 0 where
  at_start : Reaches options may_cancel may_answer f f
  then_move :
      {g h : FanOut V R}
      → Reaches options may_cancel may_answer f g
      → Move options may_cancel may_answer g h
      → Reaches options may_cancel may_answer f h

-- Anything may be cancelled or answered.
abbrev pub AnyCause : {V : Type 0} → Option (Err V) → Type 0
AnyCause cause = Unit

abbrev pub AnyAnswer : {V R : Type 0} → ℕ → BranchAnswer V R → Type 0
AnyAnswer i answer = Unit
