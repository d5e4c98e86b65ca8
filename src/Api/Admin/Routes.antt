-- ===== src/Api/Admin/Routes.antt =====
-- The admin routes, the health check, the error handler and the shutdown of src/api/server.ts and
-- src/api/handlers/health.ts.
pub mod Access
use zuul_proxy.Prelude.{
  ℕ, String, Bool, true, false, ◌||◌, not, [], ◌∷◌, Option, none, some, eqb, starts_with, ◌==◌,
  if◌then◌else◌,
}
use zuul_proxy.Prelude.Number.{ℤ}
use zuul_proxy.Prelude.Json.{Json, Fields, null, text, obj, get_field, is_truthy}
use zuul_proxy.Types.{Result, ok, err}
use zuul_proxy.Errors.{ZuulError, new_service_error, minus}
use zuul_proxy.Auth.Signature.{NonceValidator, destroy}
use zuul_proxy.Rbac.Cache.{PermissionCache}
use zuul_proxy.Audit.Queue.{World, drain, max_drain}
use zuul_proxy.Audit.Contract.{Written}
use zuul_proxy.Audit.Encryption.{Bytes, Crypto}
use zuul_proxy.Api.Admin.Search.{
  Query, Answer, AuditSearchResult, parse_audit_search_params, perform_audit_search,
}
use zuul_proxy.Api.Admin.Revoke.{Environment, Viem, perform_emergency_revoke}

-- The bodies of these routes, without their `_governance`.
pub data AdminBody : Type 0 where
  refusal : String → AdminBody
  search_failed : ℤ → String → AdminBody
  found : AuditSearchResult → AdminBody
  revoke_failed : ℤ → String → Json → AdminBody
  revoked : Json → String → AdminBody
  unhandled : AdminBody

pub record AdminReply : Type 0 where
  pub status : ℕ
  pub body : AdminBody
  pub request_id : String
  pub timestamp : ℕ
  pub error_type : Option String

-- `localhostOnly`: `host` is the request's header of this name; false answers with 403.
unfoldable pub localhost_only : Option String → Bool
localhost_only none = false
localhost_only (some host) =
    starts_with host "localhost:" || (starts_with host "127.0.0.1:" || starts_with host "[::1]:")

-- `e.httpStatus || 500`
abbrev pub http_status : ZuulError → ℕ
http_status e = if eqb e.http_status 0 then 500 else e.http_status

-- The JSON body is no object or has no true `agent_address`, or the value of that field.
unfoldable pub agent_address : Json → Option Json
unfolding get_field
agent_address (obj fs) = elim (get_field "agent_address" fs) [
  | none ↦ none
  | some v ↦ if is_truthy v then some v else none
]
agent_address _ = none

module _ (request_id : String) (reply_s : ℕ) where
  abbrev pub answer : ℕ → AdminBody → Option String → AdminReply
  answer status body error_type = record {
    status = status;
    body = body;
    request_id = request_id;
    timestamp = reply_s;
    error_type = error_type;
  }

  abbrev pub not_local : AdminReply
  not_local =
      answer 403 (refusal "Admin endpoints only accessible from localhost")
        (some "auth/localhost_only")

  -- `app.onError`
  unfoldable pub on_error : AdminReply
  on_error = answer 500 unhandled (some "service/internal_error")

  module _ (c : Crypto) (key : Bytes) where
    abbrev pub search_reply : Result ZuulError AuditSearchResult → AdminReply
    search_reply (err e) =
        answer (http_status e) (search_failed e.code e.message) (some "service/audit_search_failed")
    search_reply (ok r) = answer 200 (found r) none

    -- The route `/admin/audit/search`; `query` is the `get` of the parameters after the first `?`.
    unfoldable pub search_route :
        Option String → (String → Option String) → (Query → Answer) → AdminReply
    unfolding parse_audit_search_params perform_audit_search
    search_route host query call =
        if localhost_only host
        then (elim (parse_audit_search_params query) [
          | err message ↦ answer 400 (refusal message) (some "request/invalid_params")
          | ok p ↦ search_reply (perform_audit_search c key call p)
        ])
        else not_local

  module _ (env : Environment) (viem : Viem) (fallback : String → String → Written) where
    abbrev pub revoke_reply :
        Json
        → Result ZuulError String × Option PermissionCache
        → AdminReply × Option PermissionCache
    revoke_reply agent (err e, cache) = (
      answer (http_status e) (revoke_failed e.code e.message agent) (some "service/revoke_failed"),
      cache,
    )
    revoke_reply agent (ok tx, cache) = (answer 200 (revoked agent tx) none, cache)

    -- `agentAddress.match` of a value that is no text throws, inside the `try`.
    unfoldable pub revoke_value :
        Json → Option PermissionCache → AdminReply × Option PermissionCache
    unfolding perform_emergency_revoke new_service_error
    revoke_value (text agent) cache =
        revoke_reply (text agent) (perform_emergency_revoke env viem fallback agent cache)
    revoke_value v cache = revoke_reply v (
      err (
          new_service_error "Internal error during revocation" (minus 32603) 500
            "service/internal_error" []),
      cache,
    )

    -- With the body that `context.req.json()` gave.
    unfoldable pub with_body : Json → Option PermissionCache → AdminReply × Option PermissionCache
    unfolding revoke_value on_error agent_address
    with_body null cache = (on_error, cache)
    with_body body cache = elim (agent_address body) [
      | none ↦ (
        answer 400 (refusal "Missing required field: agent_address")
            (some "request/invalid_params"),
        cache,
      )
      | some v ↦ revoke_value v cache
    ]

    -- The route `/admin/rbac/revoke`; `body` is `none` where `context.req.json()` throws.
    unfoldable pub revoke_route :
        Option String → Option Json → Option PermissionCache → AdminReply × Option PermissionCache
    unfolding with_body on_error localhost_only
    revoke_route host body cache =
        if localhost_only host
        then (elim body [ none ↦ (on_error, cache) | some v ↦ with_body v cache ])
        else (not_local, cache)

-- `healthHandler`
pub record Health : Type 0 where
  pub http_status : ℕ
  pub status : String
  pub timestamp : ℕ

unfoldable pub health_handler : ℕ → Health
health_handler reply_s = record { http_status = 200; status = "ok"; timestamp = reply_s }

-- The handlers of SIGTERM and SIGINT: the queue is drained, then the nonces are dropped.
unfoldable pub shutdown :
    (ℕ → ℕ → Result String String) → World → NonceValidator → World × NonceValidator
unfolding drain destroy
shutdown writer w v = (drain writer max_drain w, destroy v)
