-- ===== src/Errors/Connect.antt =====
-- ironflow/connect_errors.go: what a failure of a ConnectRPC call becomes, and which of them may be sent
-- again.
use ironflow_go.Prelude.{
  ◌≡◌, refl, Option, none, some, ◌++◌, Text, codes, Bool, true, false, if◌then◌else◌, ℤ, text_eq,
}
use ironflow_go.Errors.{Err, foreign, ironflow_from, wrap_error, as_ironflow}
use ironflow_go.Errors.Retry.{is_retryable}

pub data RpcCode : Type 0 where
  canceled : RpcCode
  unknown : RpcCode
  invalid_argument : RpcCode
  deadline_exceeded : RpcCode
  not_found : RpcCode
  already_exists : RpcCode
  permission_denied : RpcCode
  resource_exhausted : RpcCode
  failed_precondition : RpcCode
  aborted : RpcCode
  out_of_range : RpcCode
  unimplemented : RpcCode
  internal : RpcCode
  unavailable : RpcCode
  data_loss : RpcCode
  unauthenticated : RpcCode

-- `isRetryableConnectCode`
unfoldable pub is_retryable_connect_code : RpcCode → Bool
is_retryable_connect_code unknown = true
is_retryable_connect_code deadline_exceeded = true
is_retryable_connect_code internal = true
is_retryable_connect_code unavailable = true
is_retryable_connect_code data_loss = true
is_retryable_connect_code resource_exhausted = true
is_retryable_connect_code canceled = false
is_retryable_connect_code invalid_argument = false
is_retryable_connect_code not_found = false
is_retryable_connect_code already_exists = false
is_retryable_connect_code permission_denied = false
is_retryable_connect_code failed_precondition = false
is_retryable_connect_code aborted = false
is_retryable_connect_code out_of_range = false
is_retryable_connect_code unimplemented = false
is_retryable_connect_code unauthenticated = false

-- A `*connect.Error`: its code with the code's text, its message, and of its metadata the two entries
-- that are read, `Retry-After` as `parseRetryAfter` reads it.
pub record RpcError : Type 0 where
  pub code : RpcCode
  pub code_text : Text
  pub message : Text
  pub retry_after : ℤ
  pub reason : Text

-- An error of a call: nil, one of Connect, or one that never reached the server.
pub data CallError (V : Type 0) : Type 0 where
  no_error : CallError V
  rpc_error : RpcError → CallError V
  transport_error : Err V → CallError V

abbrev pub injection_unverified : Text
injection_unverified = codes "injection_unverified"

-- The sentinels and the text that follows the message of an error of authentication.
pub record RpcTexts : Type 0 where
  pub auth_help : Text
  pub rpc_text : RpcError → Text

abbrev pub message_of : RpcTexts → RpcError → Text
message_of texts e =
    let plain = e.code_text ++ codes ": " ++ e.message in
    elim e.code [
      | unauthenticated ↦ plain ++ codes " — " ++ texts.auth_help
      | permission_denied ↦ plain ++ codes " — " ++ texts.auth_help
      | _ ↦ plain
    ]

abbrev pub may_resend : {V : Type 0} → CallError V → Option Bool
may_resend no_error = none
may_resend (transport_error e) = some true
may_resend (rpc_error e) = some (is_retryable_connect_code e.code)

abbrev map_retryable : {V : Type 0} → Option (Err V) → Option Bool
map_retryable none = none
map_retryable (some e) = some (is_retryable e)

module _ {V : Type 0} (texts : RpcTexts) where
  -- The cause that callers match on.
  unfoldable pub cause_of : RpcError → Err V
  cause_of e = elim e.code [
    | unauthenticated ↦ foreign (codes "unauthorized")
    | permission_denied ↦ foreign (codes "forbidden")
    | aborted ↦
        if text_eq e.reason injection_unverified
        then foreign (codes "injection unverified")
        else foreign (codes "contended")
    | already_exists ↦ foreign (codes "conflict")
    | _ ↦ foreign (texts.rpc_text e)
  ]

  -- `connectError`
  unfoldable pub connect_error : CallError V → Option (Err V)
  unfolding cause_of is_retryable_connect_code wrap_error text_eq
  connect_error no_error = none
  connect_error (transport_error e) =
      some (wrap_error e (codes "request failed") (codes "REQUEST_FAILED") true)
  connect_error (rpc_error e) = some (
      ironflow_from
        (record {
          message = message_of texts e;
          code = e.code_text;
          retryable = is_retryable_connect_code e.code;
          retry_after = e.retry_after;
        })
        (cause_of e))

  -- The retry decision of the SDK on the failure of a call is that of the table of codes; a failure that
  -- never reached the server is retryable, whatever it wraps.
  pub is_retryable-connect_error :
      (e : CallError V) → map_retryable (connect_error e) ≡ may_resend e
  unfolding connect_error is_retryable as_ironflow wrap_error
  is_retryable-connect_error no_error = refl
  is_retryable-connect_error (transport_error e) = refl
  is_retryable-connect_error (rpc_error e) = refl
