-- ===== src/Errors.antt =====
-- ironflow/errors.go (and `InvokeError`, `YieldInfo`, `EventFilter` of ironflow/types.go): the error
-- values of the SDK and of the code it calls, the chain that `errors.As` and `errors.Unwrap` walk,
-- the retry decision, and the text of a wait's deadline. Values of type `any` are of a type `V`.
pub mod Retry
pub mod Yields
pub mod Rest
pub mod Connect
use ironflow_go.Prelude.{
  ℕ, zero, suc, ◌+◌, ◌*◌, ◌/◌, ◌%◌, Option, none, some, List, [], ◌∷◌, ◌++◌, Text, codes, ltb, leb,
  ◌==◌, if◌then◌else◌, Bool, true, false, not, ◌&&◌, ◌||◌, ℤ, pos, negsuc, is_pos, pos_part, String,
  text_eq,
}

-- The fields of `IronflowError` but the cause, which the constructors of `Err` carry, and the
-- details, which nothing here reads.
pub record ErrorMeta : Type 0 where
  pub message : Text
  pub code : Text
  pub retryable : Bool
  pub retry_after : ℤ  -- nanoseconds

pub record EventFilter (V : Type 0) : Type 0 where
  pub on_timeout : Text
  pub payload : Option V
  pub event : Text
  pub «match» : Text
  pub match_value : Text
  pub timeout : ℤ
  pub timeout_str : Text

pub record YieldInfo (V : Type 0) : Type 0 where
  pub step_id : Text
  pub kind : Text
  pub until : Text
  pub event_filter : Option (EventFilter V)
  pub function_id : Text
  pub input : Option V
  pub invoke_timeout_ms : ℕ

-- An `error`: what its dynamic type is, and what `Unwrap` of it returns.
pub data Err (V : Type 0) : Type 0 where
  foreign : Text → Err V  -- any error that wraps nothing and is no type of the SDK
  wrapped : Text → Err V → Err V  -- `fmt.Errorf` with `%w`: the whole text, the wrapped error
  ironflow : ErrorMeta → Err V  -- `*IronflowError` with no cause
  ironflow_from : ErrorMeta → Err V → Err V  -- `*IronflowError` with a cause
  step_error : Text → Text → Err V → Err V  -- `*StepError`: id, name, the embedded error
  step_timeout_error : Text → ℤ → Err V → Err V  -- `*StepTimeoutError`
  non_retryable_error : Err V → Err V  -- `*NonRetryableError`
  invoke_error : Text → Text → Text → Err V  -- `*InvokeError`: function, child run, cause
  yield_signal : YieldInfo V → Err V  -- `*yieldSignal`

-- `%q` of a text and `%s` of a duration, of Go's `fmt`.
pub record Formats : Type 0 where
  pub quoted : Text → Text
  pub duration_string : ℤ → Text

abbrev pub step_meta : Text → Bool → ErrorMeta
step_meta message retryable = record {
  message = message;
  code = codes "STEP_ERROR";
  retryable = retryable;
  retry_after = pos 0;
}

module _ {V : Type 0} where
  -- `Error()`. The three types that embed `*IronflowError` take its method.
  unfoldable pub error_text : Err V → Text
  error_text (foreign message) = message
  error_text (wrapped message cause) = message
  error_text (ironflow meta) = meta.message
  error_text (ironflow_from meta cause) = meta.message ++ codes ": " ++ error_text cause
  error_text (step_error id name inner) = error_text inner
  error_text (step_timeout_error name timeout inner) = error_text inner
  error_text (non_retryable_error inner) = error_text inner
  error_text (invoke_error fn [] cause) = codes "invoke '" ++ fn ++ codes "' failed: " ++ cause
  error_text (invoke_error fn (c ∷ run) cause) =
      codes "invoke '" ++ fn ++ codes "' failed (run " ++ (c ∷ run) ++ codes "): " ++ cause
  error_text (yield_signal info) = codes "yield signal"

  -- `Unwrap()`, nil where the type has none.
  unfoldable pub unwrap : Err V → Option (Err V)
  unwrap (wrapped message cause) = some cause
  unwrap (ironflow_from meta cause) = some cause
  unwrap (step_error id name inner) = some inner
  unwrap (step_timeout_error name timeout inner) = some inner
  unwrap (non_retryable_error inner) = some inner
  unwrap _ = none

  unfoldable pub new_error : Text → Text → Bool → Err V
  new_error message code retryable =
      ironflow
        (record { message = message; code = code; retryable = retryable; retry_after = pos 0 })

  unfoldable pub wrap_error : Err V → Text → Text → Bool → Err V
  wrap_error err message code retryable =
      ironflow_from
        (record { message = message; code = code; retryable = retryable; retry_after = pos 0 }) err

  -- With a cause, and with nil for it.
  unfoldable pub new_step_error : Text → Text → Text → Bool → Option (Err V) → Err V
  new_step_error message id name retryable (some cause) =
      step_error id name (ironflow_from (step_meta message retryable) cause)
  new_step_error message id name retryable none =
      step_error id name (ironflow (step_meta message retryable))

  unfoldable pub new_step_timeout_error : Formats → Text → ℤ → Err V
  new_step_timeout_error f name timeout = step_timeout_error name timeout (
      ironflow (record {
        message =
            codes "step "
            ++ f.quoted name
            ++ codes " timed out after "
            ++ f.duration_string timeout;
        code = codes "STEP_TIMEOUT";
        retryable = true;
        retry_after = pos 0;
      }))

  unfoldable pub new_non_retryable_error : Text → Err V
  new_non_retryable_error message = non_retryable_error (
      ironflow (record {
        message = message;
        code = codes "NON_RETRYABLE";
        retryable = false;
        retry_after = pos 0;
      }))

  unfoldable pub wrap_non_retryable : Err V → Err V
  unfolding error_text
  wrap_non_retryable err = non_retryable_error (
      ironflow_from
        (record {
          message = error_text err;
          code = codes "NON_RETRYABLE";
          retryable = false;
          retry_after = pos 0;
        })
        err)

  unfoldable pub new_retry_after_error : Text → ℤ → Err V
  new_retry_after_error message after = ironflow (record {
    message = message;
    code = codes "RETRY_AFTER";
    retryable = true;
    retry_after = after;
  })

  -- `errors.AsType[*IronflowError]`: the first of that type in the chain.
  unfoldable pub as_ironflow : Err V → Option ErrorMeta
  as_ironflow (ironflow meta) = some meta
  as_ironflow (ironflow_from meta cause) = some meta
  as_ironflow (wrapped message cause) = as_ironflow cause
  as_ironflow (step_error id name inner) = as_ironflow inner
  as_ironflow (step_timeout_error name timeout inner) = as_ironflow inner
  as_ironflow (non_retryable_error inner) = as_ironflow inner
  as_ironflow _ = none

  -- `errors.AsType[*InvokeError]`, for the question whether there is one.
  unfoldable pub has_invoke_error : Err V → Bool
  has_invoke_error (invoke_error fn run cause) = true
  has_invoke_error (ironflow_from meta cause) = has_invoke_error cause
  has_invoke_error (wrapped message cause) = has_invoke_error cause
  has_invoke_error (step_error id name inner) = has_invoke_error inner
  has_invoke_error (step_timeout_error name timeout inner) = has_invoke_error inner
  has_invoke_error (non_retryable_error inner) = has_invoke_error inner
  has_invoke_error _ = false

  -- `errors.AsType[*yieldSignal]`
  unfoldable pub is_yield_signal : Err V → Option (YieldInfo V)
  is_yield_signal (yield_signal info) = some info
  is_yield_signal (ironflow_from meta cause) = is_yield_signal cause
  is_yield_signal (wrapped message cause) = is_yield_signal cause
  is_yield_signal (step_error id name inner) = is_yield_signal inner
  is_yield_signal (step_timeout_error name timeout inner) = is_yield_signal inner
  is_yield_signal (non_retryable_error inner) = is_yield_signal inner
  is_yield_signal _ = none
