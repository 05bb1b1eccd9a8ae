-- ===== src/Parallel.antt =====
-- `Parallel` and `ParallelWithBranch` of ironflow/parallel.go: the branches of a fan-out, the bound on
-- how many run at once, and what the call answers when all are over. A branch's callback is what it
-- answers with; which branch goes next is the schedule's choice (Parallel/Schedule).
pub mod Schedule
pub mod Slots
pub mod Returns
pub mod Agrees
pub mod Progress
pub mod Warning
pub mod Call
use ironflow_go.Prelude.{
  ℕ, suc, ◌+◌, Option, none, some, List, [], ◌∷◌, Text, codes, Bool, true, false, ltb, ◌&&◌, ◌||◌,
  if◌then◌else◌, text_eq, replicate, set, map,
}
use ironflow_go.Errors.{Err, YieldInfo}
use ironflow_go.Exec.{Outcome, returned, errored, panicked}

pub record ParallelOptions : Type 0 where
  pub concurrency : ℕ
  pub on_error : Text

-- `if options.OnError == "" { options.OnError = "failFast" }`
unfoldable pub with_default : ParallelOptions → ParallelOptions
with_default options =
    if text_eq options.on_error [] then record options { on_error = codes "failFast" } else options

abbrev pub fails_fast : ParallelOptions → Bool
fails_fast options = text_eq options.on_error (codes "failFast")

-- What a branch's callback does.
pub data BranchAnswer (V R : Type 0) : Type 0 where
  gives : R → BranchAnswer V R
  fails : Err V → BranchAnswer V R
  yields : YieldInfo V → BranchAnswer V R

-- Where a branch is, with what it wrote at its index of `results`, `errors` and `yieldSigs`.
pub data Slot (V R : Type 0) : Type 0 where
  waiting : Slot V R
  running : Slot V R
  skipped : Slot V R
  gave : R → Slot V R
  had_error : Err V → Slot V R
  had_yield : YieldInfo V → Slot V R

pub record FanOut (V R : Type 0) : Type 0 where
  pub slots : List (Slot V R)
  pub cancelled : Bool

module _ {V R : Type 0} where
  abbrev pub fan_out : ℕ → FanOut V R
  fan_out n = record { slots = replicate n waiting; cancelled = false }

  abbrev pub weight : Slot V R → ℕ
  weight running = 1
  weight _ = 0

  unfoldable pub count_running : List (Slot V R) → ℕ
  count_running [] = 0
  count_running (s ∷ slots) = weight s + count_running slots

  -- A branch that got past the semaphore: skipped after a cancel, only where there is a semaphore;
  -- over with the worker's error where the run is cancelled, which only `Parallel` looks at; else it runs.
  abbrev pub entered : ParallelOptions → Option (Err V) → Bool → Slot V R
  entered options cause cancelled =
      if ltb 0 options.concurrency && (cancelled && fails_fast options)
      then skipped
      else elim cause [ none ↦ running | some e ↦ had_error e ]

  abbrev pub enter : ParallelOptions → Option (Err V) → ℕ → FanOut V R → FanOut V R
  enter options cause i f = record f { slots = set f.slots i (entered options cause f.cancelled) }

  abbrev pub slot_of : BranchAnswer V R → Slot V R
  slot_of (gives r) = gave r
  slot_of (fails e) = had_error e
  slot_of (yields info) = had_yield info

  abbrev pub cancels : ParallelOptions → BranchAnswer V R → Bool
  cancels options (gives r) = false
  cancels options (fails e) = fails_fast options
  cancels options (yields info) = true

  abbrev pub leave : ParallelOptions → ℕ → BranchAnswer V R → FanOut V R → FanOut V R
  leave options i answer f = record f {
    slots = set f.slots i (slot_of answer);
    cancelled = f.cancelled || cancels options answer;
  }

  unfoldable pub first_yield : List (Slot V R) → Option (YieldInfo V)
  first_yield [] = none
  first_yield (had_yield info ∷ slots) = some info
  first_yield (s ∷ slots) = first_yield slots

  unfoldable pub first_error : List (Slot V R) → Option (Err V)
  first_error [] = none
  first_error (had_error e ∷ slots) = some e
  first_error (s ∷ slots) = first_error slots

  -- `results[i]`, which is the zero value where nothing was written.
  abbrev pub result_of : Slot V R → Option R
  result_of (gave r) = some r
  result_of _ = none

  -- After `wg.Wait()`: a yield before an error, each by the lowest index.
  unfoldable pub settle_slots : ParallelOptions → List (Slot V R) → Outcome V (List (Option R))
  settle_slots options slots = elim (first_yield slots) [
    | some info ↦ panicked info
    | none ↦
        if text_eq options.on_error (codes "allSettled")
        then returned (map result_of slots)
        else elim (first_error slots) [ some e ↦ errored e | none ↦ returned (map result_of slots) ]
  ]
