-- ===== src/Projection/Sorted.antt =====
-- The order in which `processManaged` of ironflow/projection_runner.go takes a batch:
-- `slices.SortStableFunc` on the sequence numbers.
use ironflow_go.Prelude.{ℕ, ◌≤◌, List, [], ◌∷◌, ◌==◌, if◌then◌else◌}
use ironflow_go.Projection.Batch.{PollEvent}

module _ {O V : Type 0} where
  -- The events of one sequence number, in their order.
  abbrev pub with_seq : ℕ → List (PollEvent O V) → List (PollEvent O V)
  with_seq n [] = []
  with_seq n (e ∷ events) = if e.seq == n then e ∷ with_seq n events else with_seq n events

  abbrev pub StartsAt : ℕ → List (PollEvent O V) → Type 0
  StartsAt n [] = Unit
  StartsAt n (e ∷ events) = n ≤ e.seq

  abbrev pub IsSorted : List (PollEvent O V) → Type 0
  IsSorted [] = Unit
  IsSorted (e ∷ events) = StartsAt e.seq events × IsSorted events
