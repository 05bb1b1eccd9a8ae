-- ===== src/Examples/Suspensions.antt =====
-- Sleeps, waits, calls and compensations of the run of `Fixtures`.
use ironflow_go.Prelude.{
  ℕ, ◌+◌, ◌≡◌, refl, Option, none, some, [], ◌∷◌, Text, codes, ℤ, pos, true, false, lookup, text_eq,
  reverse,
}
use ironflow_go.StepId.{format_id, escape_step_id_part, step_id_part_escaper, cut_prefix, itoa}
use ironflow_go.Errors.{foreign, YieldInfo, EventFilter}
use ironflow_go.Errors.Yields.{new_sleep_yield, new_wait_event_yield}
use ironflow_go.Exec.{CompletedStep, CompensationEntry, Frame, Outcome, returned, branch}
use ironflow_go.Exec.Ids.{
  generate_root_step_id, generate_branch_step_id, generate_step_id, prefer_legacy_step_id, counter,
}
use ironflow_go.Exec.Run.{done}
use ironflow_go.Exec.Suspend.{
  Event, EventJson, decode_wait_event, decode_wait_result, sleep, sleep_at, wait_for_event_impl,
  wait_at, suspend_wait, wait_filter,
}
use ironflow_go.Exec.Suspend.Resumes.{resumed_from, sleep_resumes, wait_resumes}
use ironflow_go.Exec.Invoke.{ErrorJson}
use ironflow_go.Exec.Compensate.{run_compensation, compensate_one, execute_compensations}
use ironflow_go.Examples.Fixtures.{marshal_number, never, new_context, start, first_branch}

-- The clock's answer is the same at every time.
abbrev noon : ℤ → ℕ → Text
noon d w = codes "2026-01-01T12:00:00Z"

abbrev nap : YieldInfo ℕ
nap = new_sleep_yield (codes "run:nap:0") (codes "2026-01-01T12:00:00Z")

abbrev sleep_nap : Frame ℕ ℕ → Outcome ℕ (Unit {0}) × Frame ℕ ℕ
sleep_nap = sleep never noon (codes "nap") (pos 60000000000)

sleep_resumes_example :
    ((sleep_nap (resumed_from nap none 9 start)).0 ≡ returned tt)
    × ((sleep_nap (resumed_from nap none 9 start)).1.exec.resume_handled ≡ true)
    × ((sleep_nap (resumed_from nap none 9 start)).1.exec.executed_steps ≡ [])
    × ((sleep_nap (resumed_from nap none 9 start)).1.world ≡ 9)
unfolding sleep sleep_at generate_root_step_id prefer_legacy_step_id counter lookup text_eq
    format_id escape_step_id_part step_id_part_escaper cut_prefix itoa new_sleep_yield
sleep_resumes_example =
    sleep_resumes never (codes "nap") noon (pos 60000000000) start nap none 9 refl refl

-- Bytes parse to an envelope whose sender is "worker" and whose data is their own text.
abbrev envelope : Event (Unit {0})
envelope = record {
  id = codes "e1";
  name = codes "order.approved";
  has_timestamp = true;
  raw_data = [];
  emitted_by = codes "worker";
  rest = tt;
}

abbrev event_json : EventJson ℕ (Unit {0})
event_json = record {
  marshal = marshal_number;
  parse_event = λ raw. done envelope;
  parse_data = λ raw. done raw;
}

abbrev approval : EventFilter ℕ
approval = record {
  on_timeout = [];
  payload = none;
  event = codes "order.approved";
  «match» = [];
  match_value = [];
  timeout = pos 0;
  timeout_str = [];
}

abbrev approved : Event (Unit {0})
approved = record envelope { raw_data = 5 ∷ [] }

decode_required :
    decode_wait_result event_json false (codes "run:ok:0") (codes "ok") (some 5)
    ≡ returned (some approved)
unfolding decode_wait_result decode_wait_event text_eq
decode_required = refl

abbrev wait_info : YieldInfo ℕ
wait_info = new_wait_event_yield (codes "run:a:0:ok:0") (wait_filter true approval)

abbrev in_branch : Frame ℕ ℕ
in_branch = record start { scope = branch first_branch }

abbrev wait_ok : Frame ℕ ℕ → Outcome ℕ (Option (Event (Unit {0}))) × Frame ℕ ℕ
wait_ok = wait_for_event_impl never event_json true (codes "ok") approval

wait_resumes_example :
    ((wait_ok (resumed_from wait_info (some 5) 9 in_branch)).0
      ≡ decode_wait_result event_json true wait_info.step_id (codes "ok") (some 5))
    × ((wait_ok (resumed_from wait_info (some 5) 9 in_branch)).1.exec.resume_handled ≡ true)
    × ((wait_ok (resumed_from wait_info (some 5) 9 in_branch)).1.exec.executed_steps ≡ [])
    × ((wait_ok (resumed_from wait_info (some 5) 9 in_branch)).1.world ≡ 9)
unfolding wait_for_event_impl wait_at suspend_wait generate_step_id generate_branch_step_id
    prefer_legacy_step_id counter lookup text_eq format_id escape_step_id_part step_id_part_escaper
    cut_prefix itoa
wait_resumes_example =
    wait_resumes never event_json true (codes "ok") approval in_branch wait_info 5 9 refl refl

abbrev error_json : ErrorJson ℕ
error_json = record { marshal = marshal_number; as_json_string = λ v. none; parse = λ raw. none }

abbrev failed_child : CompletedStep ℕ
failed_child = record {
  id = codes "run:charge:0";
  name = codes "charge";
  status = codes "failed";
  output = none;
  error = some 3;
}

abbrev charged : Frame ℕ ℕ
charged = record start {
  exec = record new_context { completed_steps = (codes "run:charge:0", failed_child) ∷ [] };
}

-- The first registered compensation succeeds, the second fails.
abbrev refund : CompensationEntry ℕ ℕ
refund = record {
  step_name = codes "pay";
  handler = λ w. (record { error = none; took = 1 }, w + 1);
}

abbrev recall : CompensationEntry ℕ ℕ
recall = record {
  step_name = codes "ship";
  handler = λ w. (record { error = some (foreign (codes "no")); took = 1 }, w + 10);
}

abbrev failed_run : Frame ℕ ℕ
failed_run = record start { exec = record new_context { compensations = refund ∷ recall ∷ [] } }

both_run : (execute_compensations never failed_run).world ≡ 11
unfolding execute_compensations compensate_one generate_root_step_id prefer_legacy_step_id counter
    lookup text_eq format_id escape_step_id_part step_id_part_escaper cut_prefix itoa reverse
    run_compensation
both_run = refl
