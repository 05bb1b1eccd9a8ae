-- ===== src/Examples/Steps.antt =====
-- A step that runs, and the same step in the next invocation.
use ironflow_go.Prelude.{ℕ, ◌≡◌, refl, none, some, [], ◌∷◌, Text, codes, pos, lookup, text_eq}
use ironflow_go.StepId.{format_id, escape_step_id_part, step_id_part_escaper, cut_prefix, itoa}
use ironflow_go.Exec.{StepResult, Frame, Outcome, returned}
use ironflow_go.Exec.Ids.{generate_root_step_id, prefer_legacy_step_id, counter}
use ironflow_go.Exec.Run.{run_with_step_id, execute_step}
use ironflow_go.Exec.Ids.Legacy.{generate_stable}
use ironflow_go.Exec.Run.Records.{Recorded, run_records_once}
use ironflow_go.Exec.Run.Replay.{run_replays}
use ironflow_go.Examples.Fixtures.{
  numbers, plain_formats, seven, never, new_context, start, row_seven,
}

abbrev pay : Text
pay = codes "pay"

abbrev run_pay : Frame ℕ ℕ → Outcome ℕ ℕ × Frame ℕ ℕ
run_pay = run_with_step_id plain_formats numbers seven never pay (pos 0)

abbrev paid : StepResult ℕ
paid = record {
  id = codes "run:pay:0";
  name = pay;
  kind = codes "invoke";
  status = codes "completed";
  duration = 3000000;
  output = some 7;
  error = none;
  compensation_for = [];
}

pay_runs :
    ((run_pay start).0 ≡ returned 7)
    × ((run_pay start).1.exec.executed_steps ≡ paid ∷ [])
    × ((run_pay start).1.world ≡ 1)
unfolding run_with_step_id execute_step generate_root_step_id prefer_legacy_step_id counter lookup
    text_eq format_id escape_step_id_part step_id_part_escaper cut_prefix itoa
pay_runs = (refl, refl, refl)

-- The next invocation has the reported result as a row.
abbrev resumed : Frame ℕ ℕ
resumed = record start {
  exec = record new_context {
    completed_steps = (codes "run:pay:0", row_seven) ∷ [];
    step_timeout = pos 1;
  };
  world = 5;
}

run_records_once_example :
    ((run_pay start).1.world ≡ 1)
    × Recorded numbers (generate_root_step_id pay new_context).0 pay start (run_pay start)
unfolding lookup
run_records_once_example =
    run_records_once plain_formats numbers seven never pay (pos 0) start refl tt

run_replays_example :
    run_pay resumed
    ≡ (returned 7, record resumed { exec = (generate_root_step_id pay resumed.exec).1 })
unfolding run_with_step_id execute_step generate_root_step_id prefer_legacy_step_id counter lookup
    text_eq format_id escape_step_id_part step_id_part_escaper cut_prefix itoa
run_replays_example =
    run_replays plain_formats numbers never pay 7 paid start resumed seven seven (pos 0) (pos 0)
      refl refl tt refl refl (7 ∷ [], refl, refl) refl refl refl (λ ne. absurd (ne refl))

-- The row of the same step in the first branch.
abbrev branch_rows : Frame ℕ ℕ
branch_rows = record start {
  exec = record new_context { completed_steps = (codes "run:a:0:pay:0", row_seven) ∷ [] };
}

-- The first invocation gives "pay" its id; in the next one it has a row under it.
generate_stable_example :
    (generate_root_step_id pay resumed.exec).0 ≡ (generate_root_step_id pay new_context).0
unfolding generate_root_step_id prefer_legacy_step_id counter lookup text_eq format_id
    escape_step_id_part step_id_part_escaper cut_prefix itoa
generate_stable_example =
    generate_stable pay new_context resumed.exec refl refl refl (λ ne. absurd (ne refl))
