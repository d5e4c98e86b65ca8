-- ===== src/Errors.antt =====
-- src/errors.ts: the error class hierarchy, the table of error codes and the factories.
pub mod Table
use Prim.Native.Nat.{pred}
use zuul_proxy.Prelude.{ℕ, String, Bool, ◌||◌, eqb, List, if◌then◌else◌}
use zuul_proxy.Prelude.Number.{ℤ, negsuc}
use zuul_proxy.Prelude.Text.{concat}
use zuul_proxy.Types.{Result, ok, err, Value}

abbrev pub Info : Type 0
Info = List (String × Value)

-- The subclass that an error is an instance of; `plain` is JavaScript's own `Error`.
pub data ErrorClass : Type 0 where
  auth_error permission_error request_error service_error rate_limit_error plain : ErrorClass

-- `ZuulError`: the contextual `data` record is a list of names and values.
pub record ZuulError : Type 0 where
  pub class : ErrorClass
  pub message : String
  pub code : ℤ
  pub http_status : ℕ
  pub error_type : String
  pub info : Info

-- The keys of `ERRORS`.
pub data ErrorKey : Type 0 where
  missing_signature invalid_signature unknown_wallet invalid_nonce timestamp_drift : ErrorKey
  no_tool_access no_action_access wallet_revoked unknown_tool malformed_request : ErrorKey
  upstream_error service_timeout service_unavailable rate_exceeded internal_error : ErrorKey

-- A row of `ERRORS`.
pub record ErrorRow : Type 0 where
  pub code : ℤ
  pub http_status : ℕ
  pub error_type : String
  pub message : String

-- -n, for n > 0
abbrev pub minus : ℕ → ℤ
minus n = negsuc (pred n)

abbrev row : ℕ → ℕ → String → String → ErrorRow
row code http_status error_type message = record {
  code = minus code;
  http_status = http_status;
  error_type = error_type;
  message = message;
}

-- `ERRORS`
unfoldable pub errors : ErrorKey → ErrorRow
errors missing_signature = row 32001 401 "auth/missing_signature" "Missing signature"
errors invalid_signature = row 32002 401 "auth/invalid_signature" "Invalid signature"
errors unknown_wallet = row 32003 401 "auth/unknown_wallet" "Wallet not registered"
errors invalid_nonce = row 32004 401 "auth/invalid_nonce" "Invalid nonce"
errors timestamp_drift =
    row 32005 401 "auth/timestamp_drift" "Request timestamp outside ±5 min window"
errors no_tool_access =
    row 32010 403 "permission/no_tool_access" "Permission denied: no access to tool"
errors no_action_access =
    row 32011 403 "permission/no_action_access" "Permission denied: action not allowed"
errors wallet_revoked = row 32012 403 "permission/revoked" "Wallet revoked"
errors unknown_tool = row 32013 404 "request/unknown_tool" "Tool not found"
errors malformed_request = row 32600 400 "request/malformed" "Invalid request"
errors upstream_error = row 32020 502 "service/upstream_error" "Service error"
errors service_timeout = row 32021 504 "service/timeout" "Service timeout"
errors service_unavailable = row 32022 503 "service/unavailable" "Service unavailable"
errors rate_exceeded = row 32030 429 "rate/exceeded" "Rate limit exceeded"
errors internal_error = row 32603 500 "internal/error" "Internal error"

-- The constructors of the subclasses: `AuthError`, `PermissionError` and `RateLimitError` fix the
-- HTTP status.
unfoldable pub new_auth_error : String → ℤ → String → Info → ZuulError
new_auth_error message code error_type info = record {
  class = auth_error;
  message = message;
  code = code;
  http_status = 401;
  error_type = error_type;
  info = info;
}

unfoldable pub new_permission_error : String → ℤ → String → Info → ZuulError
new_permission_error message code error_type info = record {
  class = permission_error;
  message = message;
  code = code;
  http_status = 403;
  error_type = error_type;
  info = info;
}

unfoldable pub new_request_error : String → ℤ → ℕ → String → Info → ZuulError
new_request_error message code http_status error_type info = record {
  class = request_error;
  message = message;
  code = code;
  http_status = http_status;
  error_type = error_type;
  info = info;
}

unfoldable pub new_service_error : String → ℤ → ℕ → String → Info → ZuulError
new_service_error message code http_status error_type info = record {
  class = service_error;
  message = message;
  code = code;
  http_status = http_status;
  error_type = error_type;
  info = info;
}

unfoldable pub new_rate_limit_error : String → ℤ → String → Info → ZuulError
new_rate_limit_error message code error_type info = record {
  class = rate_limit_error;
  message = message;
  code = code;
  http_status = 429;
  error_type = error_type;
  info = info;
}

-- The key's own spelling, which the factories' messages show.
abbrev key_name : ErrorKey → String
key_name missing_signature = "MISSING_SIGNATURE"
key_name invalid_signature = "INVALID_SIGNATURE"
key_name unknown_wallet = "UNKNOWN_WALLET"
key_name invalid_nonce = "INVALID_NONCE"
key_name timestamp_drift = "TIMESTAMP_DRIFT"
key_name no_tool_access = "NO_TOOL_ACCESS"
key_name no_action_access = "NO_ACTION_ACCESS"
key_name wallet_revoked = "WALLET_REVOKED"
key_name unknown_tool = "UNKNOWN_TOOL"
key_name malformed_request = "MALFORMED_REQUEST"
key_name upstream_error = "UPSTREAM_ERROR"
key_name service_timeout = "SERVICE_TIMEOUT"
key_name service_unavailable = "SERVICE_UNAVAILABLE"
key_name rate_exceeded = "RATE_EXCEEDED"
key_name internal_error = "INTERNAL_ERROR"

-- The factories: an `err` is the message of the plain error that is thrown for a key of another
-- class.
unfoldable pub create_auth_error : ErrorKey → Info → Result String ZuulError
unfolding errors new_auth_error
create_auth_error key info =
    let e = errors key in
    if eqb e.http_status 401
    then ok (new_auth_error e.message e.code e.error_type info)
    else err (concat "Not an auth error: " (key_name key))

unfoldable pub create_permission_error : ErrorKey → Info → Result String ZuulError
unfolding errors new_permission_error
create_permission_error key info =
    let e = errors key in
    if eqb e.http_status 403
    then ok (new_permission_error e.message e.code e.error_type info)
    else err (concat "Not a permission error: " (key_name key))

unfoldable pub create_request_error : ErrorKey → Info → Result String ZuulError
unfolding errors new_request_error
create_request_error key info =
    let e = errors key in
    if eqb e.http_status 400 || eqb e.http_status 404
    then ok (new_request_error e.message e.code e.http_status e.error_type info)
    else err (concat "Not a request error: " (key_name key))

unfoldable pub create_service_error : ErrorKey → Info → Result String ZuulError
unfolding errors new_service_error
create_service_error key info =
    let e = errors key in
    if eqb e.http_status 502 || (eqb e.http_status 503 || eqb e.http_status 504)
    then ok (new_service_error e.message e.code e.http_status e.error_type info)
    else err (concat "Not a service error: " (key_name key))

unfoldable pub create_rate_limit_error : ErrorKey → Info → Result String ZuulError
unfolding errors new_rate_limit_error
create_rate_limit_error key info =
    let e = errors key in
    if eqb e.http_status 429
    then ok (new_rate_limit_error e.message e.code e.error_type info)
    else err (concat "Not a rate limit error: " (key_name key))
