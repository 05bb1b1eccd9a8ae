-- ===== src/Projection/Errors.antt =====
-- The errors of a projection's runner, and what `errors.Is` finds in them. `streamError` and
-- `projectionStatusError` of ironflow/projection_runner.go turn the codes of a server's answer into
-- them.
use ironflow_go.Prelude.{ℕ, Option, none, some, Text, Bool, false, ◌==◌, ◌||◌, if◌then◌else◌}

-- The error values that others wrap, and that the runner looks for.
pub data Sentinel : Type 0 where
  lease_lost : Sentinel
  streaming_unsupported : Sentinel
  batch_failed : Sentinel
  unimplemented : Sentinel
  invalid_argument : Sentinel
  unauthorized : Sentinel
  forbidden : Sentinel

abbrev pub number_of : Sentinel → ℕ
number_of lease_lost = 0
number_of streaming_unsupported = 1
number_of batch_failed = 2
number_of unimplemented = 3
number_of invalid_argument = 4
number_of unauthorized = 5
number_of forbidden = 6

pub data ProjectionError : Type 0 where
  other_error : Text → ProjectionError
  sentinel : Sentinel → ProjectionError
  wrapped_error : Text → ProjectionError → ProjectionError  -- `fmt.Errorf` with one `%w`
  both_errors : ProjectionError → ProjectionError → ProjectionError  -- `%w: %w`, and `errors.Join`

-- `errors.Is`
unfoldable pub err_is : Sentinel → ProjectionError → Bool
err_is s (other_error m) = false
err_is s (sentinel t) = number_of s == number_of t
err_is s (wrapped_error m e) = err_is s e
err_is s (both_errors e f) = err_is s e || err_is s f

abbrev pub as_sentinel : Sentinel → ProjectionError → ProjectionError
as_sentinel s e = both_errors (sentinel s) e

-- The codes of Connect that the runner tells apart.
pub data ConnectCode : Type 0 where
  code_unimplemented : ConnectCode
  code_not_found : ConnectCode
  code_aborted : ConnectCode
  code_invalid_argument : ConnectCode
  code_other : ConnectCode

-- `streamError`; `connectError` is given.
unfoldable pub stream_error :
    (ProjectionError → ProjectionError) → ConnectCode → ProjectionError → ProjectionError
stream_error connect_error code_unimplemented e = as_sentinel streaming_unsupported e
stream_error connect_error code_not_found e = as_sentinel streaming_unsupported e
stream_error connect_error code_aborted e = as_sentinel lease_lost e
stream_error connect_error code_invalid_argument e = connect_error e
stream_error connect_error code_other e = connect_error e

-- A body without a code under HTTP 404 is that of a server which does not know the method.
abbrev pub body_code : ℕ → Option ConnectCode → ConnectCode
body_code status (some code) = code
body_code status none = if status == 404 then code_unimplemented else code_other

-- `projectionStatusError`, of the status and of the code in the body, if there is one.
unfoldable pub projection_status_error : ℕ → Option ConnectCode → Text → ProjectionError
projection_status_error status code message = elim (body_code status code) [
  | code_aborted ↦ as_sentinel lease_lost (other_error message)
  | code_unimplemented ↦ as_sentinel unimplemented (other_error message)
  | code_invalid_argument ↦ as_sentinel invalid_argument (other_error message)
  | code_not_found ↦ other_error message
  | code_other ↦ other_error message
]

-- `registerFatal`: what a retry cannot fix.
unfoldable pub register_fatal : ProjectionError → Bool
unfolding err_is
register_fatal e = err_is unauthorized e || (err_is forbidden e || err_is invalid_argument e)
