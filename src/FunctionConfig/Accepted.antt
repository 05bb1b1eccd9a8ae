-- ===== src/FunctionConfig/Accepted.antt =====
-- What a configuration that `validateFunctionConfig` of ironflow/function.go accepts has in it.
use ironflow_go.Prelude.{
  All-map, ℕ, suc, ◌≡◌, ◌≢◌, refl, subst, Option, none, some, List, [], ◌∷◌, Text, Bool, true,
  false, not, ◌&&◌, ◌||◌, pos, is_pos, is_zero, text_eq, text_eq_refl, All, ◌⊎◌, inl, inr,
  Bool-cases, arith,
}
use ironflow_go.Signature.{split_on}
use ironflow_go.FunctionConfig.{
  Trigger, ThrottleConfig, ConcurrencyConfig, DebounceConfig, CancelOnConfig, FunctionConfig,
  ConfigError, ◌then_check◌, fails_if, is_blank, is_negative, lt_int, one_second, contains_byte,
  check_segments, validate_function_id, check_triggers, seen_before, cancel_key, check_cancel_on,
  check_concurrency, check_debounce, check_breaker, check_throttle, check_retry, is_known_profile,
  validate_function_config, id_required, id_has_wildcard, id_has_empty_segment,
  id_has_space_or_control, trigger_empty, cancel_on_no_event, cancel_on_no_match,
  cancel_on_duplicate, concurrency_not_positive, debounce_too_short, throttle_limit_below_one,
  throttle_too_short,
}

then_check-none : (a b : Option ConfigError) → (a then_check b) ≡ none → (a ≡ none) × (b ≡ none)
then_check-none none b h = (refl, h)
then_check-none (some e) b h = absurd cc

fails_if-none : (b : Bool) (e : ConfigError) → fails_if b e ≡ none → b ≡ false
fails_if-none true e h = absurd cc
fails_if-none false e h = refl

is_blank-nil : (s : Text) → is_blank s ≡ false → s ≢ []
is_blank-nil [] h e = absurd cc
is_blank-nil (c ∷ s) h e = cc

-- Neither * nor >.
abbrev pub IsLiteral : ℕ → Type 0
IsLiteral c = (c ≢ 42) × (c ≢ 62)

contains_byte-All :
    (id : Text) → (contains_byte 42 id || contains_byte 62 id) ≡ false → All IsLiteral id
unfolding contains_byte
contains_byte-All [] h = tt
contains_byte-All (x ∷ s) h = ((ground arith, ground arith), contains_byte-All s (ground arith))

check_segments-All :
    (bad : Text → Bool) (segments : List Text)
    → check_segments bad segments ≡ none
    → All (λ s. (s ≢ []) × (bad s ≡ false)) segments
unfolding check_segments
check_segments-All bad [] h = tt
check_segments-All bad (s ∷ segments) h =
    let (some_text, h') = then_check-none (fails_if (is_blank s) id_has_empty_segment) _ h in
    let (fine, rest) = then_check-none (fails_if (bad s) id_has_space_or_control) _ h' in
    (
      (is_blank-nil s (fails_if-none _ _ some_text), fails_if-none _ _ fine),
      check_segments-All bad segments rest,
    )

abbrev pub Fires : Trigger → Type 0
Fires t = (t.event ≢ []) ⊎ (t.cron ≢ [])

check_triggers-All :
    (i : ℕ) (triggers : List Trigger) → check_triggers i triggers ≡ none → All Fires triggers
unfolding check_triggers
check_triggers-All i [] h = tt
check_triggers-All i (t ∷ triggers) h =
    let (one, rest) =
      then_check-none (fails_if (is_blank t.event && is_blank t.cron) (trigger_empty i)) _ h in
    let not_both = fails_if-none (is_blank t.event && is_blank t.cron) _ one in
    (
      elim (Bool-cases (is_blank t.event)) [
        | inr by_event ↦ inl (is_blank-nil t.event by_event)
        | inl no_event ↦ inr (is_blank-nil t.cron (rw (no_event) at not_both))
      ],
      check_triggers-All (suc i) triggers rest,
    )

abbrev pub IsWhole : CancelOnConfig → Type 0
IsWhole spec = (spec.event ≢ []) × (spec.«match» ≢ [])

-- No two specs are the same.
abbrev pub AllDistinct : List CancelOnConfig → Type 0
AllDistinct [] = Unit
AllDistinct (spec ∷ specs) = All (λ later. spec ≢ later) specs × AllDistinct specs

abbrev Unseen : List Text → CancelOnConfig → Type 0
Unseen seen spec = seen_before (cancel_key spec) seen ≡ false

seen_before-cons :
    (key k : Text) (seen : List Text)
    → seen_before key (k ∷ seen) ≡ false
    → (text_eq k key ≡ false) × (seen_before key seen ≡ false)
unfolding seen_before
seen_before-cons key k seen h = (ground arith, ground arith)

text_eq_ne_refl :
    (spec later : CancelOnConfig)
    → text_eq (cancel_key spec) (cancel_key later) ≡ false
    → spec ≢ later
text_eq_ne_refl spec later other same =
    let equal : text_eq (cancel_key spec) (cancel_key later) ≡ true =
      subst (λ l. text_eq (cancel_key spec) (cancel_key l) ≡ true) same
        (text_eq_refl (cancel_key spec)) in
    cc

abbrev Checked : List Text → List CancelOnConfig → Type 0
Checked seen specs = All (Unseen seen) specs × (All IsWhole specs × AllDistinct specs)

check_cancel_on-Checked :
    (specs : List CancelOnConfig) (i : ℕ) (seen : List Text)
    → check_cancel_on i seen specs ≡ none
    → Checked seen specs
unfolding check_cancel_on
check_cancel_on-Checked [] i seen h = (tt, (tt, tt))
check_cancel_on-Checked (spec ∷ specs) i seen h =
    let (event, h1) = then_check-none (fails_if (is_blank spec.event) (cancel_on_no_event i)) _ h in
    let (match_on, h2) =
      then_check-none (fails_if (is_blank spec.«match») (cancel_on_no_match i)) _ h1 in
    let (new, h3) =
      then_check-none (fails_if (seen_before (cancel_key spec) seen) (cancel_on_duplicate i)) _
        h2 in
    let (unseen, (whole, distinct)) =
      check_cancel_on-Checked specs (suc i) (cancel_key spec ∷ seen) h3 in
    (
      (
        fails_if-none _ _ new,
        All-map (λ s u. (seen_before-cons (cancel_key s) (cancel_key spec) seen u).1) specs unseen,
      ),
      (
        (
          (
            is_blank-nil spec.event (fails_if-none _ _ event),
            is_blank-nil spec.«match» (fails_if-none _ _ match_on),
          ),
          whole,
        ),
        (
          All-map
              (λ s u.
                text_eq_ne_refl spec s (seen_before-cons (cancel_key s) (cancel_key spec) seen u).0)
              specs unseen,
          distinct,
        ),
      ),
    )

abbrev pub FitsConcurrency : Option ConcurrencyConfig → Type 0
FitsConcurrency none = Unit
FitsConcurrency (some c) = is_pos c.limit ≡ true

abbrev pub FitsDebounce : Option DebounceConfig → Type 0
FitsDebounce none = Unit
FitsDebounce (some d) =
    (lt_int d.period one_second ≡ false)
    × ((is_zero d.max_wait ≡ true) ⊎ (lt_int d.max_wait d.period ≡ false))

abbrev pub FitsThrottle : Option ThrottleConfig → Type 0
FitsThrottle none = Unit
FitsThrottle (some t) = (lt_int t.limit (pos 1) ≡ false) × (lt_int t.period one_second ≡ false)

check_concurrency-Fits :
    (o : Option ConcurrencyConfig) → check_concurrency o ≡ none → FitsConcurrency o
check_concurrency-Fits none h = tt
check_concurrency-Fits (some c) h =
    let no = fails_if-none (not (is_pos c.limit)) concurrency_not_positive h in ground arith

check_debounce-Fits : (o : Option DebounceConfig) → check_debounce o ≡ none → FitsDebounce o
check_debounce-Fits none h = tt
check_debounce-Fits (some d) h =
    let (long, rest) =
      then_check-none (fails_if (lt_int d.period one_second) debounce_too_short) _ h in
    let wait = fails_if-none (not (is_zero d.max_wait) && lt_int d.max_wait d.period) _ rest in
    (
      fails_if-none _ _ long,
      elim (Bool-cases (is_zero d.max_wait)) [
        | inl unset ↦ inl unset
        | inr given ↦ inr (rw (given) at wait)
      ],
    )

check_throttle-Fits : (o : Option ThrottleConfig) → check_throttle o ≡ none → FitsThrottle o
unfolding check_throttle
check_throttle-Fits none h = tt
check_throttle-Fits (some t) h =
    let (enough, h1) =
      then_check-none (fails_if (lt_int t.limit (pos 1)) throttle_limit_below_one) _ h in
    let (long, h2) =
      then_check-none (fails_if (lt_int t.period one_second) throttle_too_short) _ h1 in
    (fails_if-none _ _ enough, fails_if-none _ _ long)

pub record Accepted {F : Type 0} (has_space_or_control : Text → Bool) (c : FunctionConfig F)
    : Type 0 where
  pub has_id : c.id ≢ []
  pub literal : All IsLiteral c.id
  pub segments : All (λ s. (s ≢ []) × (has_space_or_control s ≡ false)) (split_on 46 c.id)
  pub triggers : All Fires c.triggers
  pub timeouts : (is_negative c.timeout ≡ false) × (is_negative c.step_timeout ≡ false)
  pub concurrency : FitsConcurrency c.concurrency
  pub debounce : FitsDebounce c.debounce
  pub throttle : FitsThrottle c.throttle
  pub cancel_on : All IsWhole c.cancel_on × AllDistinct c.cancel_on

-- A configuration that is accepted has an id without wildcards whose segments are not empty and have no
-- space or control character; triggers with an event or a cron each; timeouts that are not negative; a
-- concurrency limit of at least 1; a debounce of at least a second with a longest wait that is not
-- shorter; a throttle of at least 1 in at least a second; and specs of what cancels it that are whole
-- and pairwise distinct.
pub validate_function_config-Accepted :
    {F : Type 0} (backoff_is_bad : F → Bool) (has_space_or_control : Text → Bool)
    (c : FunctionConfig F)
    → validate_function_config backoff_is_bad has_space_or_control c ≡ none
    → Accepted has_space_or_control c
unfolding validate_function_config validate_function_id
validate_function_config-Accepted backoff_is_bad bad c h =
    let (id_ok, h1) = then_check-none (validate_function_id bad c.id) _ h in
    let (profile_ok, h2) =
      then_check-none (fails_if (not (is_known_profile c.recording_profile)) _) _ h1 in
    let (triggers_ok, h3) = then_check-none (check_triggers 0 c.triggers) _ h2 in
    let (timeout_ok, h4) = then_check-none (fails_if (is_negative c.timeout) _) _ h3 in
    let (step_ok, h5) = then_check-none (fails_if (is_negative c.step_timeout) _) _ h4 in
    let (concurrency_ok, h6) = then_check-none (check_concurrency c.concurrency) _ h5 in
    let (debounce_ok, h7) = then_check-none (check_debounce c.debounce) _ h6 in
    let (cancel_ok, h8) = then_check-none (check_cancel_on 0 [] c.cancel_on) _ h7 in
    let (retry_ok, h9) = then_check-none (check_retry backoff_is_bad c.retry) _ h8 in
    let (breaker_ok, throttle_ok) = then_check-none (check_breaker c.circuit_breaker) _ h9 in
    let (some_id, i1) = then_check-none (fails_if (is_blank c.id) id_required) _ id_ok in
    let (no_wildcard, i2) =
      then_check-none (fails_if (contains_byte 42 c.id || contains_byte 62 c.id) id_has_wildcard) _
        i1 in
    record {
      has_id = is_blank-nil c.id (fails_if-none _ _ some_id);
      literal = contains_byte-All c.id (fails_if-none _ _ no_wildcard);
      segments = check_segments-All bad (split_on 46 c.id) i2;
      triggers = check_triggers-All 0 c.triggers triggers_ok;
      timeouts = (fails_if-none _ _ timeout_ok, fails_if-none _ _ step_ok);
      concurrency = check_concurrency-Fits c.concurrency concurrency_ok;
      debounce = check_debounce-Fits c.debounce debounce_ok;
      throttle = check_throttle-Fits c.throttle throttle_ok;
      cancel_on = (check_cancel_on-Checked c.cancel_on 0 [] cancel_ok).1;
    }
