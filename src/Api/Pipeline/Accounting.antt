-- ===== src/Api/Pipeline/Accounting.antt =====
-- Upstream calls and the audit entries that account for them (src/api/server.ts,
-- src/api/middleware/audit.ts).
use zuul_proxy.Prelude.{◌≡◌, refl, Option, some, ap}
use zuul_proxy.Types.{SignedRequest}
use zuul_proxy.Auth.Acceptance.{verify_signed_request_iff}
use zuul_proxy.Audit.Queue.{World}
use zuul_proxy.Proxy.Executor.{UpstreamCall}
use zuul_proxy.Api.Context.{HttpRequest, Context, new_context, proceed}
use zuul_proxy.Api.Signature.{build_signed_request}
use zuul_proxy.Api.Rbac.{rbac_middleware}
use zuul_proxy.Api.Forward.{Reply, ready}
use zuul_proxy.Api.Pipeline.{Server, Platform, Run, Shared, run_handler, handle}
use zuul_proxy.Api.Pipeline.Granted.{authorise_proceed_of}
use zuul_proxy.Api.Pipeline.Authorisation.{IsAuthorised, handle_call_iff}
use zuul_proxy.Api.Pipeline.Passing.{address_filled, ready_full}
use zuul_proxy.Api.Pipeline.Settled.{
  Queued, settled, IsVerified, handle_settled, rbac_stage, Encrypts, audit-Queued,
}

module _ (server : Server) (platform : Platform) (run : Run) (req : HttpRequest) (s : Shared)
    (u : UpstreamCall) (a : IsAuthorised server platform run req s u) where
  signed : SignedRequest
  signed = build_signed_request req a.target

  verified : Context
  verified = record (new_context run.request_id) {
    recovered_address = some a.agent;
    signed_request = some signed;
  }

  granted : Context
  granted = record verified {
    tool_key = some a.tool.key;
    action = some a.action;
    role = some a.role;
  }

  verified_of : IsVerified server platform run req s verified
  unfolding verified signed
  verified_of = record {
    encoded = a.encoded;
    target = a.target;
    agent = a.agent;
    headers = a.headers;
    path = a.path;
    decoded = a.decoded;
    method = a.method;
    verified =
        (verify_signed_request_iff platform.recover run.verify_ms
            (build_signed_request req a.target) s.nonces a.agent).1
          a.admissible;
    context = refl;
  }

  rbac_stage_granted : (rbac_stage server platform run req verified s.cache).0 ≡ proceed granted
  unfolding verified granted signed rbac_middleware build_signed_request
  rbac_stage_granted =
      authorise_proceed_of server.registry run.now run.later run.reply_s run.outcomes verified
        granted s.cache a.agent signed
        (record {
          action = a.action;
          tool = a.tool;
          role = a.role;
          inferred = a.inferred;
          found = a.found;
          looked_up = a.looked_up;
          granted = (a.active, a.permitted);
          context = refl;
        })

  ready_granted :
      ready granted
      ≡ some (record { agent = a.agent; signed = signed; tool = a.tool.key; action = a.action })
  unfolding verified granted signed
  ready_granted =
      ready_full server platform run req granted _ refl refl refl refl
        (address_filled server platform run req a.agent a.admissible.address) a.named

  authorised-Queued :
      Encrypts server platform run req
      → Queued a.agent
          (build_signed_request req a.target).signature
          s.audit
          (handle server platform run req s).shared.audit
  unfolding settled signed
  authorised-Queued encrypts =
      let done = handle_settled server platform run req s verified verified_of in
      let done' = rw rbac_stage_granted at done in
      let queued =
        audit-Queued server platform run req granted _
          (run_handler server platform run req granted).0 s.audit ready_granted encrypts in
      rw (ap (λ (x : Reply × Option UpstreamCall × World). x.2) done') queued

-- Where encryption succeeds, a request that makes an upstream call leaves exactly one audit entry
-- more in the queue, for the agent that it is authorised for and with the request's signature.
pub handle_call-Queued :
    (server : Server) (platform : Platform) (run : Run) (req : HttpRequest) (s : Shared)
    (u : UpstreamCall)
    → (handle server platform run req s).call ≡ some u
    → Encrypts server platform run req
    → (a : IsAuthorised server platform run req s u) × Queued a.agent
        (build_signed_request req a.target).signature
        s.audit
        (handle server platform run req s).shared.audit
handle_call-Queued server platform run req s u e encrypts =
    let a = (handle_call_iff server platform run req s u).0 e in
    (a, authorised-Queued server platform run req s u a encrypts)
