-- ===== src/Errors/Yields.antt =====
-- ironflow/errors.go: the signals that suspend a run, and the text of a wait's deadline.
pub mod Denotes
use ironflow_go.Prelude.{
  ℕ, ◌+◌, ◌*◌, ◌/◌, ◌%◌, some, none, [], ◌++◌, Text, codes, leb, ◌==◌, if◌then◌else◌, ◌&&◌, is_pos,
  pos_part, text_eq,
}
use ironflow_go.StepId.{itoa}
use ironflow_go.Errors.{EventFilter, YieldInfo}

abbrev pub second : ℕ
second = 1000000000

abbrev pub minute : ℕ
minute = 60 * second

abbrev pub hour : ℕ
hour = 60 * minute

-- Only positive durations are formatted.
unfoldable pub format_duration : ℕ → Text
format_duration d =
    if leb hour d && (d % hour == 0)
    then itoa (d / hour) ++ codes "h"
    else if leb minute d && (d % minute == 0)
    then itoa (d / minute) ++ codes "m"
    else itoa (d / second) ++ codes "s"

module _ {V : Type 0} where
  unfoldable pub new_sleep_yield : Text → Text → YieldInfo V
  new_sleep_yield id until = record {
    step_id = id;
    kind = codes "sleep";
    until = until;
    event_filter = none;
    function_id = [];
    input = none;
    invoke_timeout_ms = 0;
  }

  -- `filter.TimeoutStr` is set where it is empty and the timeout is positive.
  unfoldable pub with_timeout_str : EventFilter V → EventFilter V
  with_timeout_str filter =
      if is_pos filter.timeout && text_eq filter.timeout_str []
      then record filter { timeout_str = format_duration (pos_part filter.timeout) }
      else filter

  unfoldable pub new_wait_event_yield : Text → EventFilter V → YieldInfo V
  unfolding with_timeout_str
  new_wait_event_yield id filter = record {
    step_id = id;
    kind = codes "wait_for_event";
    until = [];
    event_filter = some (with_timeout_str filter);
    function_id = [];
    input = none;
    invoke_timeout_ms = 0;
  }
