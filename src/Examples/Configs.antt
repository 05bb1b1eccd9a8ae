-- ===== src/Examples/Configs.antt =====
-- A function's configuration that is accepted, one that is not, and two specs whose texts run together.
use ironflow_go.Prelude.{ℕ, ◌≡◌, refl, none, some, [], ◌∷◌, Text, codes, Bool, false, pos, text_eq}
use ironflow_go.Signature.{split_on}
use ironflow_go.FunctionConfig.{
  FunctionConfig, CancelOnConfig, validate_function_config, validate_function_id, check_segments,
  contains_byte, check_triggers, check_cancel_on, seen_before, check_throttle, validate_event_path,
  ends_with_dot, has_two_dots, cancel_on_duplicate, id_has_empty_segment, one_second,
}
use ironflow_go.FunctionConfig.Accepted.{Accepted, validate_function_config-Accepted}

abbrev no_bad_factor : ℕ → Bool
no_bad_factor n = false

abbrev no_bad_rune : Text → Bool
no_bad_rune s = false

abbrev on : Text → Text → CancelOnConfig
on event path = record { event = event; «match» = path }

abbrev config : FunctionConfig ℕ
config = record {
  id = codes "orders.pay";
  name = [];
  mode = [];
  triggers = record { event = codes "order.placed"; expression = []; cron = [] } ∷ [];
  retry = none;
  timeout = pos 0;
  step_timeout = pos 0;
  concurrency = none;
  debounce = some (record { period = one_second; key = []; max_wait = pos 0 });
  circuit_breaker = none;
  throttle = some (record { limit = pos 5; period = one_second; key = codes "$.user.id" });
  cancel_on = on (codes "a") (codes "b") ∷ on (codes "a") (codes "c") ∷ [];
  recording_profile = codes "steps";
}

config_accepted : validate_function_config no_bad_factor no_bad_rune config ≡ none
unfolding validate_function_config validate_function_id check_segments contains_byte check_triggers
    check_cancel_on seen_before check_throttle validate_event_path ends_with_dot has_two_dots
    text_eq split_on
config_accepted = refl

empty_segment_rejected :
    validate_function_config no_bad_factor no_bad_rune (record config { id = codes "orders..pay" })
    ≡ some id_has_empty_segment
unfolding validate_function_config validate_function_id check_segments contains_byte check_triggers
    check_cancel_on seen_before check_throttle validate_event_path ends_with_dot has_two_dots
    text_eq split_on
empty_segment_rejected = refl

-- Different specs whose event and match read the same with the bar between them.
joined_rejected :
    validate_function_config no_bad_factor no_bad_rune (record config {
      cancel_on = on (codes "a|b") (codes "c") ∷ on (codes "a") (codes "b|c") ∷ [];
    })
    ≡ some (cancel_on_duplicate 1)
unfolding validate_function_config validate_function_id check_segments contains_byte check_triggers
    check_cancel_on seen_before check_throttle validate_event_path ends_with_dot has_two_dots
    text_eq split_on
joined_rejected = refl

validate_function_config-Accepted_example : Accepted no_bad_rune config
validate_function_config-Accepted_example =
    validate_function_config-Accepted no_bad_factor no_bad_rune config config_accepted
