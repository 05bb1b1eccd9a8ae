-- ===== src/Exec/Suspend/Events.antt =====
-- What a wait answers with: never nil where a value was asked for, and never a sender that a
-- payload claims for itself.
use ironflow_go.Prelude.{◌≡◌, refl, ◌⊎◌, inl, inr, Option, none, some, Text, false, arith}
use ironflow_go.Exec.{returned}
use ironflow_go.Exec.Run.{Try, done, failed}
use ironflow_go.Exec.Suspend.{Event, EventJson, decode_wait_result}

pub Try-cases : {A : Type 0} (t : Try A) → ((m : Text) × (t ≡ failed m)) ⊎ ((a : A) × (t ≡ done a))
Try-cases (failed m) = inl (m, refl)
Try-cases (done a) = inr (a, refl)

module _ {V R : Type 0} (json : EventJson V R) where
  -- The required form of a wait does not answer with nil.
  pub wait_required_some :
      (id name : Text) (v : Option V) (answer : Option (Event R))
      → decode_wait_result json false id name v ≡ returned answer
      → (e : Event R) × (answer ≡ some e)
  unfolding decode_wait_result
  wait_required_some id name v (some e) h = (e, refl)
  wait_required_some id name v none h = absurd (ground arith)
