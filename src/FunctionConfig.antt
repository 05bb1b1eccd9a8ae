-- ===== src/FunctionConfig.antt =====
-- What `CreateFunction` accepts and makes of a function's configuration: ironflow/function.go, over the
-- configuration of ironflow/types.go. Durations are in
-- nanoseconds. A backoff factor is of a type `F` of floating point numbers, with its tests as
-- parameters, and so is the test of Go's package unicode on the runes of a segment.
pub mod Accepted
pub mod Metadata
use ironflow_go.Prelude.{
  ℕ, zero, suc, ◌+◌, ◌*◌, ◌/◌, Option, none, some, List, [], ◌∷◌, ◌++◌, Text, codes, Bool, true,
  false, not, ◌==◌, ◌&&◌, ◌||◌, ltb, leb, if◌then◌else◌, ℤ, pos, negsuc, is_pos, is_zero, pos_part,
  text_eq,
}
use ironflow_go.Signature.{split_on}

pub record Trigger : Type 0 where
  pub event : Text
  pub expression : Text
  pub cron : Text

pub record RetryConfig (F : Type 0) : Type 0 where
  pub max_attempts : ℤ
  pub initial_delay : ℤ
  pub backoff_factor : F
  pub max_delay : ℤ
  pub on_exhausted : Text

pub record CircuitBreakerConfig : Type 0 where
  pub failure_threshold : ℤ
  pub open_duration : ℤ
  pub max_open_duration : ℤ

pub record ThrottleConfig : Type 0 where
  pub limit : ℤ
  pub period : ℤ
  pub key : Text

pub record ConcurrencyConfig : Type 0 where
  pub limit : ℤ
  pub key : Text

pub record DebounceConfig : Type 0 where
  pub period : ℤ
  pub key : Text
  pub max_wait : ℤ

pub record CancelOnConfig : Type 0 where
  pub event : Text
  pub «match» : Text

-- The fields that are validated or given a default.
pub record FunctionConfig (F : Type 0) : Type 0 where
  pub id : Text
  pub name : Text
  pub mode : Text
  pub triggers : List Trigger
  pub retry : Option (RetryConfig F)
  pub timeout : ℤ
  pub step_timeout : ℤ
  pub concurrency : Option ConcurrencyConfig
  pub debounce : Option DebounceConfig
  pub circuit_breaker : Option CircuitBreakerConfig
  pub throttle : Option ThrottleConfig
  pub cancel_on : List CancelOnConfig
  pub recording_profile : Text

-- Which check failed, in the order of the code.
pub data ConfigError : Type 0 where
  id_required : ConfigError
  id_has_wildcard : ConfigError
  id_has_empty_segment : ConfigError
  id_has_space_or_control : ConfigError
  bad_recording_profile : ConfigError
  trigger_empty : ℕ → ConfigError
  timeout_negative : ConfigError
  step_timeout_negative : ConfigError
  concurrency_not_positive : ConfigError
  debounce_too_short : ConfigError
  max_wait_below_period : ConfigError
  cancel_on_no_event : ℕ → ConfigError
  cancel_on_no_match : ℕ → ConfigError
  cancel_on_duplicate : ℕ → ConfigError
  max_attempts_negative : ConfigError
  initial_delay_negative : ConfigError
  backoff_below_one : ConfigError
  max_delay_negative : ConfigError
  bad_on_exhausted : ConfigError
  breaker_negative : ConfigError
  breaker_max_below_open : ConfigError
  throttle_limit_below_one : ConfigError
  throttle_too_short : ConfigError
  path_empty : ConfigError
  path_dot_at_end : ConfigError
  path_empty_segment : ConfigError

-- One check after the other: the first error counts.
infix 20 ◌then_check◌
abbrev pub ◌then_check◌ : Option ConfigError → Option ConfigError → Option ConfigError
none then_check next = next
(some e) then_check next = some e

abbrev pub fails_if : Bool → ConfigError → Option ConfigError
fails_if true e = some e
fails_if false e = none

abbrev pub is_blank : Text → Bool
is_blank [] = true
is_blank (c ∷ s) = false

abbrev pub is_negative : ℤ → Bool
is_negative (pos n) = false
is_negative (negsuc n) = true

-- a < b
abbrev pub lt_int : ℤ → ℤ → Bool
lt_int (pos a) (pos b) = ltb a b
lt_int (pos a) (negsuc b) = false
lt_int (negsuc a) (pos b) = true
lt_int (negsuc a) (negsuc b) = ltb b a

abbrev pub one_second : ℤ
one_second = pos 1000000000

unfoldable pub contains_byte : ℕ → Text → Bool
contains_byte c [] = false
contains_byte c (x ∷ s) = x == c || contains_byte c s

unfoldable pub check_segments :
    (has_space_or_control : Text → Bool) → List Text → Option ConfigError
check_segments bad [] = none
check_segments bad (segment ∷ segments) =
    fails_if (is_blank segment) id_has_empty_segment then_check (
      fails_if (bad segment) id_has_space_or_control then_check check_segments bad segments)

-- `validateFunctionID`
unfoldable pub validate_function_id :
    (has_space_or_control : Text → Bool) → Text → Option ConfigError
unfolding contains_byte check_segments split_on
validate_function_id bad id = fails_if (is_blank id) id_required then_check (
    fails_if (contains_byte 42 id || contains_byte 62 id) id_has_wildcard
    then_check check_segments bad (split_on 46 id))

unfoldable pub check_triggers : ℕ → List Trigger → Option ConfigError
check_triggers i [] = none
check_triggers i (t ∷ triggers) =
    fails_if (is_blank t.event && is_blank t.cron) (trigger_empty i)
    then_check check_triggers (suc i) triggers

unfoldable pub seen_before : Text → List Text → Bool
seen_before key [] = false
seen_before key (k ∷ seen) = text_eq k key || seen_before key seen

abbrev pub cancel_key : CancelOnConfig → Text
cancel_key spec = spec.event ++ 124 ∷ spec.«match»

unfoldable pub check_cancel_on : ℕ → (seen : List Text) → List CancelOnConfig → Option ConfigError
unfolding seen_before
check_cancel_on i seen [] = none
check_cancel_on i seen (spec ∷ specs) =
    fails_if (is_blank spec.event) (cancel_on_no_event i) then_check (
      fails_if (is_blank spec.«match») (cancel_on_no_match i) then_check (
        fails_if (seen_before (cancel_key spec) seen) (cancel_on_duplicate i)
        then_check check_cancel_on (suc i) (cancel_key spec ∷ seen) specs))

abbrev pub check_concurrency : Option ConcurrencyConfig → Option ConfigError
check_concurrency none = none
check_concurrency (some c) = fails_if (not (is_pos c.limit)) concurrency_not_positive

abbrev pub check_debounce : Option DebounceConfig → Option ConfigError
check_debounce none = none
check_debounce (some d) =
    fails_if (lt_int d.period one_second) debounce_too_short
    then_check fails_if (not (is_zero d.max_wait) && lt_int d.max_wait d.period)
        max_wait_below_period

abbrev pub check_breaker : Option CircuitBreakerConfig → Option ConfigError
check_breaker none = none
check_breaker (some b) =
    fails_if
      (is_negative b.failure_threshold
        || (is_negative b.open_duration || is_negative b.max_open_duration))
      breaker_negative
    then_check fails_if
        (is_pos b.open_duration
          && (is_pos b.max_open_duration && lt_int b.max_open_duration b.open_duration))
        breaker_max_below_open

-- `strings.TrimPrefix(path, "$.")`
abbrev pub trim_root : Text → Text
trim_root [] = []
trim_root (a ∷ []) = a ∷ []
trim_root (a ∷ b ∷ s) = if a == 36 && b == 46 then s else a ∷ b ∷ s

abbrev pub starts_with_dot : Text → Bool
starts_with_dot [] = false
starts_with_dot (c ∷ s) = c == 46

unfoldable pub ends_with_dot : Text → Bool
ends_with_dot [] = false
ends_with_dot (c ∷ s) = if is_blank s then c == 46 else ends_with_dot s

unfoldable pub has_two_dots : Text → Bool
has_two_dots [] = false
has_two_dots (c ∷ s) = (c == 46 && starts_with_dot s) || has_two_dots s

-- `validateEventPath`
unfoldable pub validate_event_path : Text → Option ConfigError
unfolding ends_with_dot has_two_dots
validate_event_path path =
    let trimmed = trim_root path in
    fails_if (is_blank trimmed) path_empty then_check (
      fails_if (starts_with_dot trimmed || ends_with_dot trimmed) path_dot_at_end
      then_check fails_if (has_two_dots trimmed) path_empty_segment)

unfoldable pub check_throttle : Option ThrottleConfig → Option ConfigError
unfolding validate_event_path
check_throttle none = none
check_throttle (some t) = fails_if (lt_int t.limit (pos 1)) throttle_limit_below_one then_check (
    fails_if (lt_int t.period one_second) throttle_too_short
    then_check (if is_blank t.key then none else validate_event_path t.key))

abbrev pub is_known_profile : Text → Bool
is_known_profile p =
    is_blank p
    || (text_eq p (codes "all") || (text_eq p (codes "run_lifecycle") || text_eq p (codes "steps")))

-- `backoff_is_bad` is whether a factor is neither 0 nor at least 1.
module _ {F : Type 0} (backoff_is_bad : F → Bool) where
  abbrev pub check_retry : Option (RetryConfig F) → Option ConfigError
  check_retry none = none
  check_retry (some r) = fails_if (is_negative r.max_attempts) max_attempts_negative then_check (
      fails_if (is_negative r.initial_delay) initial_delay_negative then_check (
        fails_if (backoff_is_bad r.backoff_factor) backoff_below_one then_check (
          fails_if (is_negative r.max_delay) max_delay_negative
          then_check fails_if
              (not (
                is_blank r.on_exhausted
                || (text_eq r.on_exhausted (codes "pause")
                    || text_eq r.on_exhausted (codes "fail"))))
              bad_on_exhausted)))

  -- `validateFunctionConfig`
  unfoldable pub validate_function_config :
      (has_space_or_control : Text → Bool) → FunctionConfig F → Option ConfigError
  unfolding validate_function_id check_triggers check_cancel_on check_throttle text_eq
  validate_function_config bad c = validate_function_id bad c.id then_check (
      fails_if (not (is_known_profile c.recording_profile)) bad_recording_profile then_check (
        check_triggers 0 c.triggers then_check (
          fails_if (is_negative c.timeout) timeout_negative then_check (
            fails_if (is_negative c.step_timeout) step_timeout_negative then_check (
              check_concurrency c.concurrency then_check (
                check_debounce c.debounce then_check (
                  check_cancel_on 0 [] c.cancel_on then_check (
                    check_retry c.retry then_check (
                      check_breaker c.circuit_breaker then_check check_throttle c.throttle)))))))))

abbrev pub push_mode : Text
push_mode = codes "push"

-- `normalizeFunctionConfig`
unfoldable pub normalize_function_config : {F : Type 0} → FunctionConfig F → FunctionConfig F
normalize_function_config c = record c {
  name = if is_blank c.name then c.id else c.name;
  mode = if is_blank c.mode then push_mode else c.mode;
}
