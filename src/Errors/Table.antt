-- ===== src/Errors/Table.antt =====
-- The table of error codes and the factories over it (src/errors.ts).
use zuul_proxy.Prelude.{
  starts_with, String, ◌≡◌, ◌↔◌, refl, ap, Bool, true, false, Option, none, some, ◌==◌, eqb,
  if◌then◌else◌,
}
use zuul_proxy.Prelude.Number.{ℤ, pos, negsuc}
use zuul_proxy.Types.{Result, ok, err}
use zuul_proxy.Errors.{
  ZuulError, ErrorClass, auth_error, permission_error, request_error, service_error,
  rate_limit_error, plain, ErrorKey, missing_signature, invalid_signature, unknown_wallet,
  invalid_nonce, timestamp_drift, no_tool_access, no_action_access, wallet_revoked, unknown_tool,
  malformed_request, upstream_error, service_timeout, service_unavailable, rate_exceeded,
  internal_error, errors, Info, create_auth_error, create_permission_error, create_request_error,
  create_service_error, create_rate_limit_error,
}

-- The error type of each key, read back.
abbrev key_of_type : String → Option ErrorKey
key_of_type t =
    if t == "auth/missing_signature"
    then some missing_signature
    else if t == "auth/invalid_signature"
    then some invalid_signature
    else if t == "auth/unknown_wallet"
    then some unknown_wallet
    else if t == "auth/invalid_nonce"
    then some invalid_nonce
    else if t == "auth/timestamp_drift"
    then some timestamp_drift
    else if t == "permission/no_tool_access"
    then some no_tool_access
    else if t == "permission/no_action_access"
    then some no_action_access
    else if t == "permission/revoked"
    then some wallet_revoked
    else if t == "request/unknown_tool"
    then some unknown_tool
    else if t == "request/malformed"
    then some malformed_request
    else if t == "service/upstream_error"
    then some upstream_error
    else if t == "service/timeout"
    then some service_timeout
    else if t == "service/unavailable"
    then some service_unavailable
    else if t == "rate/exceeded"
    then some rate_exceeded
    else if t == "internal/error"
    then some internal_error
    else none

key_of_type-errors : (k : ErrorKey) → key_of_type (errors k).error_type ≡ some k
unfolding errors
key_of_type-errors missing_signature = refl
key_of_type-errors _ = refl

-- The code of each key, read back.
abbrev key_of_code : ℤ → Option ErrorKey
key_of_code (pos n) = none
key_of_code (negsuc n) =
    if eqb n 32000
    then some missing_signature
    else if eqb n 32001
    then some invalid_signature
    else if eqb n 32002
    then some unknown_wallet
    else if eqb n 32003
    then some invalid_nonce
    else if eqb n 32004
    then some timestamp_drift
    else if eqb n 32009
    then some no_tool_access
    else if eqb n 32010
    then some no_action_access
    else if eqb n 32011
    then some wallet_revoked
    else if eqb n 32012
    then some unknown_tool
    else if eqb n 32599
    then some malformed_request
    else if eqb n 32019
    then some upstream_error
    else if eqb n 32020
    then some service_timeout
    else if eqb n 32021
    then some service_unavailable
    else if eqb n 32029
    then some rate_exceeded
    else if eqb n 32602
    then some internal_error
    else none

key_of_code-errors : (k : ErrorKey) → key_of_code (errors k).code ≡ some k
unfolding errors
key_of_code-errors missing_signature = refl
key_of_code-errors _ = refl

-- Two keys of the table of errors with the same code are the same key, and so are two keys with
-- the same error type.
pub errors_injective :
    (k j : ErrorKey)
    → (((errors k).code ≡ (errors j).code) ↔ (k ≡ j))
      × (((errors k).error_type ≡ (errors j).error_type) ↔ (k ≡ j))
errors_injective k j = (
  (λ h. cc (key_of_code-errors k, key_of_code-errors j, ap key_of_code h), λ h. rw h refl),
  (λ h. cc (key_of_type-errors k, key_of_type-errors j, ap key_of_type h), λ h. rw h refl),
)

-- The part of an error type before the slash, for the errors of a class.
abbrev pub namespace : ErrorClass → String
namespace auth_error = "auth/"
namespace permission_error = "permission/"
namespace request_error = "request/"
namespace service_error = "service/"
namespace rate_limit_error = "rate/"
namespace plain = "Error/"

-- The factory of a class.
abbrev pub create : ErrorClass → ErrorKey → Info → Result String ZuulError
create auth_error = create_auth_error
create permission_error = create_permission_error
create request_error = create_request_error
create service_error = create_service_error
create rate_limit_error = create_rate_limit_error
create plain = λ k i. err "no factory"

-- The error that the table describes, as an instance of a class.
abbrev pub described : ErrorClass → ErrorKey → Info → ZuulError
described c k i = record {
  class = c;
  message = (errors k).message;
  code = (errors k).code;
  http_status = (errors k).http_status;
  error_type = (errors k).error_type;
  info = i;
}

abbrev pub IsCreated : Bool → Result String ZuulError → ZuulError → Type 0
IsCreated true r e = r ≡ ok e
IsCreated false r e = (m : String) × (r ≡ err m)

IsCreated-auth :
    (k : ErrorKey) (i : Info)
    → IsCreated
        (starts_with (errors k).error_type (namespace auth_error))
        (create auth_error k i)
        (described auth_error k i)
unfolding errors create_auth_error
IsCreated-auth missing_signature i = refl
IsCreated-auth invalid_signature i = refl
IsCreated-auth unknown_wallet i = refl
IsCreated-auth invalid_nonce i = refl
IsCreated-auth timestamp_drift i = refl
IsCreated-auth _ i = (_, refl)

IsCreated-permission :
    (k : ErrorKey) (i : Info)
    → IsCreated
        (starts_with (errors k).error_type (namespace permission_error))
        (create permission_error k i)
        (described permission_error k i)
unfolding errors create_permission_error
IsCreated-permission no_tool_access i = refl
IsCreated-permission no_action_access i = refl
IsCreated-permission wallet_revoked i = refl
IsCreated-permission _ i = (_, refl)

IsCreated-request :
    (k : ErrorKey) (i : Info)
    → IsCreated
        (starts_with (errors k).error_type (namespace request_error))
        (create request_error k i)
        (described request_error k i)
unfolding errors create_request_error
IsCreated-request unknown_tool i = refl
IsCreated-request malformed_request i = refl
IsCreated-request _ i = (_, refl)

IsCreated-service :
    (k : ErrorKey) (i : Info)
    → IsCreated
        (starts_with (errors k).error_type (namespace service_error))
        (create service_error k i)
        (described service_error k i)
unfolding errors create_service_error
IsCreated-service upstream_error i = refl
IsCreated-service service_timeout i = refl
IsCreated-service service_unavailable i = refl
IsCreated-service _ i = (_, refl)

IsCreated-rate :
    (k : ErrorKey) (i : Info)
    → IsCreated
        (starts_with (errors k).error_type (namespace rate_limit_error))
        (create rate_limit_error k i)
        (described rate_limit_error k i)
unfolding errors create_rate_limit_error
IsCreated-rate rate_exceeded i = refl
IsCreated-rate _ i = (_, refl)

IsCreated-plain :
    (k : ErrorKey) (i : Info)
    → IsCreated
        (starts_with (errors k).error_type (namespace plain))
        (create plain k i)
        (described plain k i)
unfolding errors
IsCreated-plain internal_error i = (_, refl)
IsCreated-plain _ i = (_, refl)

-- The factory of an error class accepts a key exactly if the key's error type lies in the class's
-- namespace (auth/, permission/, request/, service/, rate/), and then its error has the class and
-- the row's message, code, HTTP status and error type with the given data; for any other key it
-- throws.
pub create-IsCreated :
    (c : ErrorClass) (k : ErrorKey) (i : Info)
    → IsCreated (starts_with (errors k).error_type (namespace c)) (create c k i) (described c k i)
create-IsCreated auth_error = IsCreated-auth
create-IsCreated permission_error = IsCreated-permission
create-IsCreated request_error = IsCreated-request
create-IsCreated service_error = IsCreated-service
create-IsCreated rate_limit_error = IsCreated-rate
create-IsCreated plain = IsCreated-plain
