-- ===== src/Examples/Fixtures.antt =====
-- A run with JSON values that are numbers and a world that counts what was done to it.
use ironflow_go.Prelude.{ℕ, ◌+◌, Option, none, some, [], ◌∷◌, Text, codes, false, pos}
use ironflow_go.Errors.{Err, Formats}
use ironflow_go.Exec.{ExecutionContext, BranchContext, root, Frame, CompletedStep}
use ironflow_go.Exec.Run.{Json, Try, done, failed, FnRun, value}

abbrev pub marshal_number : Option ℕ → Try Text
marshal_number none = done (codes "null")
marshal_number (some n) = done (n ∷ [])

abbrev pub unmarshal_number : Text → Try ℕ
unmarshal_number (n ∷ []) = done n
unmarshal_number _ = failed (codes "no number")

abbrev pub numbers : Json ℕ ℕ
numbers = record { marshal = marshal_number; unmarshal = unmarshal_number; to_any = λ n. some n }

abbrev pub plain_formats : Formats
plain_formats = record { quoted = λ s. s; duration_string = λ d. codes "1s" }

-- A step that counts its runs in the world and answers 7.
abbrev pub seven : Text → ℕ → FnRun ℕ ℕ × ℕ
seven id w = (record { result = value 7; late = false; took = 3000000 }, w + 1)

abbrev pub never : ℕ → Option (Err ℕ)
never w = none

abbrev pub new_context : ExecutionContext ℕ ℕ
new_context = record {
  run_id = codes "run";
  function_id = codes "fn";
  attempt = 1;
  step_counters = [];
  completed_steps = [];
  executed_steps = [];
  resume_context = none;
  resume_handled = false;
  compensations = [];
  step_reporter = some [];
  step_timeout = pos 0;
  fan_out_depth = 0;
  enclosing_claims = 0;
  warned_unscoped = [];
}

abbrev pub start : Frame ℕ ℕ
start = record { exec = new_context; scope = root; world = 0 }

abbrev pub first_branch : BranchContext
first_branch = record {
  scope_prefix = codes "run:a:0";
  legacy_scope_prefix = codes "run:a:0";
  step_counters = [];
  scoped_client_used = false;
}

abbrev pub row_seven : CompletedStep ℕ
row_seven = record {
  id = codes "run:pay:0";
  name = codes "pay";
  status = codes "completed";
  output = some 7;
  error = none;
}
