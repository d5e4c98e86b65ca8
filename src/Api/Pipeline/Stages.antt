-- ===== src/Api/Pipeline/Stages.antt =====
-- What each stage of `/forward/*` needs to pass a request on (src/api/middleware/,
-- src/api/handlers/).
use zuul_proxy.Prelude.{
  ℕ, String, ◌≡◌, refl, inl, inr, true, Option, none, some, arith, Bool-cases, Option-cases,
}
use zuul_proxy.Prelude.Dict.{get}
use zuul_proxy.Types.{PermissionAction, SignedRequest, Result, ok, err, text}
use zuul_proxy.Errors.{ZuulError}
use zuul_proxy.Auth.Guards.{is_http_method, is_raw_signature_headers}
use zuul_proxy.Auth.Signature.{Payload, NonceValidator, verify_signed_request}
use zuul_proxy.Rbac.Cache.{RoleWithPermissions}
use zuul_proxy.Api.Context.{HttpRequest, Context, proceed}
use zuul_proxy.Api.Signature.{
  as_values, forward_path, build_signed_request, attach, signature_middleware,
}
use zuul_proxy.Api.Rbac.{permits, with_role}

-- A request that the signature middleware verifies, and the context that it leaves.
pub record Verified (recover : Payload → String → Option String) (decode : String → Option String)
    (verify_ms : ℕ) (req : HttpRequest) (c : Context) (v : NonceValidator) (next : Context)
    : Type 0 where
  pub encoded : String
  pub target : String
  pub agent : String
  pub headers : is_raw_signature_headers (as_values req.headers) ≡ true
  pub path : forward_path req.path ≡ some encoded
  pub decoded : decode encoded ≡ some target
  pub method : is_http_method (text req.method) ≡ true
  pub verified :
      (verify_signed_request recover verify_ms (build_signed_request req target) v).0 ≡ ok agent
  pub context :
      (record c {
        recovered_address = some agent;
        signed_request = some (build_signed_request req target);
      })
      ≡ next

attach_proceed :
    (c next : Context) (reply_s : ℕ) (signed : SignedRequest)
    (r : Result ZuulError String × NonceValidator)
    → (attach c reply_s signed r).0 ≡ proceed next
    → (agent : String) × (r.0 ≡ ok agent)
      × ((record c { recovered_address = some agent; signed_request = some signed }) ≡ next)
unfolding attach
attach_proceed c next reply_s signed (ok agent, v) e = (agent, refl, cc)
attach_proceed c next reply_s signed (err e', v) e = cc

pub signature_proceed :
    (recover : Payload → String → Option String) (decode : String → Option String)
    (verify_ms reply_s : ℕ) (req : HttpRequest) (c next : Context) (v : NonceValidator)
    → (signature_middleware recover decode verify_ms reply_s req c v).0 ≡ proceed next
    → Verified recover decode verify_ms req c v next
unfolding signature_middleware
signature_proceed recover decode verify_ms reply_s req c next v e =
    elim (Bool-cases (is_raw_signature_headers (as_values req.headers))) [
      | inr bad ↦ absurd (ground arith)
      | inl headers ↦ elim (Option-cases (forward_path req.path)) [
        | inl bad ↦ absurd (ground arith)
        | inr (encoded, path) ↦ elim (Option-cases (decode encoded)) [
          | inl bad ↦ absurd (ground arith)
          | inr (target, decoded) ↦ elim (Bool-cases (is_http_method (text req.method))) [
            | inr bad ↦ absurd (ground arith)
            | inl method ↦
                let (agent, verified, context) =
                  attach_proceed c next reply_s (build_signed_request req target)
                    (verify_signed_request recover verify_ms (build_signed_request req target) v)
                    (rw (headers, path, decoded, method) at e) in
                record {
                  encoded = encoded;
                  target = target;
                  agent = agent;
                  headers = headers;
                  path = path;
                  decoded = decoded;
                  method = method;
                  verified = verified;
                  context = context;
                }
          ]
        ]
      ]
    ]

attach_ok :
    (c : Context) (reply_s : ℕ) (signed : SignedRequest)
    (r : Result ZuulError String × NonceValidator) (agent : String)
    → r.0 ≡ ok agent
    → (attach c reply_s signed r).0
      ≡ proceed (record c { recovered_address = some agent; signed_request = some signed })
unfolding attach
attach_ok c reply_s signed (ok a, v) agent e = cc
attach_ok c reply_s signed (err e', v) agent e = cc

pub signature_proceed_of :
    (recover : Payload → String → Option String) (decode : String → Option String)
    (verify_ms reply_s : ℕ) (req : HttpRequest) (c next : Context) (v : NonceValidator)
    → Verified recover decode verify_ms req c v next
    → (signature_middleware recover decode verify_ms reply_s req c v).0 ≡ proceed next
unfolding signature_middleware
signature_proceed_of recover decode verify_ms reply_s req c next v h =
    rw (h.headers, h.path, h.decoded, h.method, ← h.context)
      (attach_ok c reply_s (build_signed_request req h.target)
        (verify_signed_request recover verify_ms (build_signed_request req h.target) v) h.agent
        h.verified)

-- The flags that stop the forward handler are not set.
pub record IsUnflagged (c : Context) : Type 0 where
  pub known : c.unknown_tool ≡ none
  pub active : c.agent_revoked ≡ none
  pub permitted : c.permission_denied ≡ none

module _ (c : Context) (tool : String) (action : PermissionAction)
    (role : RoleWithPermissions) where
  -- The role is active and grants the action on the tool.
  abbrev pub IsGranted : Type 0
  IsGranted = (role.is_active ≡ true) × (permits (get tool role.permissions) action ≡ true)

  abbrev attached : Context
  attached = record c { tool_key = some tool; action = some action; role = some role }

  pub with_role_granted : IsGranted → with_role c tool action role ≡ attached
  unfolding with_role
  with_role_granted (active, permitted) = rw (active, permitted) refl

  pub with_role_unflagged : IsUnflagged (with_role c tool action role) → IsGranted
  unfolding with_role
  with_role_unflagged h = elim (Bool-cases role.is_active) [
    | inr revoked ↦ absurd (ground (arith, h.active))
    | inl active ↦ elim (Bool-cases (permits (get tool role.permissions) action)) [
      | inr denied ↦ absurd (ground (arith, h.permitted))
      | inl permitted ↦ (active, permitted)
    ]
  ]
