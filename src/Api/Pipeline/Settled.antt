-- ===== src/Api/Pipeline/Settled.antt =====
-- What a verified request leaves, from the outcome of the permission middleware on, and its audit
-- entry (src/api/server.ts, src/api/middleware/audit.ts).
use zuul_proxy.Prelude.{ℕ, String, ◌≡◌, refl, Option, none, some}
use zuul_proxy.Types.{AuditEntry, ok}
use zuul_proxy.Audit.Queue.{World, enqueue}
use zuul_proxy.Audit.Payload.{AuditPayload}
use zuul_proxy.Auth.Signature.{NonceValidator}
use zuul_proxy.Proxy.Executor.{UpstreamCall}
use zuul_proxy.Rbac.Cache.{PermissionCache}
use zuul_proxy.Api.Context.{
  HttpRequest, Context, new_context, Governance, Body, rpc_error, wrapped, events, Outcome, respond,
  proceed,
}
use zuul_proxy.Api.Rbac.{rbac_middleware}
use zuul_proxy.Api.Forward.{Reply, reply, nothing, Ready, ready}
use zuul_proxy.Api.Audit.{observed, audit_payload, audit_entry, audit_middleware}
use zuul_proxy.Api.Pipeline.{
  Server, Platform, Run, Shared, Handled, run_handler, audited, after_rbac, after_signature, handle,
}
use zuul_proxy.Api.Pipeline.Stages.{Verified, signature_proceed_of}

abbrev pub governance_of : Body → Governance
governance_of (rpc_error code message info g) = g
governance_of (wrapped result g) = g
governance_of (events g) = g

-- The status of an answer, and the error type that its governance object gives.
abbrev pub summary : Reply → ℕ × Option String
summary (reply r) = (r.status, (governance_of r.body).error_type)
summary (nothing status) = (status, none)

-- One entry was queued, for the agent and with the signature of its request.
abbrev pub Queued : String → String → World → World → Type 0
Queued agent signature w w' =
    (e : AuditEntry) × (w' ≡ enqueue e w) × (e.agent ≡ agent) × (e.agent_signature ≡ signature)

module _ (server : Server) (platform : Platform) (run : Run) (req : HttpRequest) where
  -- What the stages after the permission middleware make of its outcome.
  unfoldable pub settled : Outcome → World → Reply × Option UpstreamCall × World
  settled (respond r) w = (reply r, none, w)
  settled (proceed c) w =
      let (answer, call) = run_handler server platform run req c in
      (answer, call, audit_middleware platform.audit run.audit c answer w)

  -- What matters of a handled request.
  abbrev pub result : Handled → Reply × Option UpstreamCall × World
  result h = (h.answer, h.call, h.shared.audit)

  abbrev pub rbac_stage : Context → PermissionCache → Outcome × PermissionCache
  rbac_stage c cache =
      rbac_middleware server.registry run.now run.later run.reply_s run.outcomes c cache

  after_rbac-settled :
      (o : Outcome × PermissionCache) (s : Shared)
      → result (after_rbac server platform run req o s) ≡ settled o.0 s.audit
  unfolding after_rbac audited settled
  after_rbac-settled (respond r, cache) s = refl
  after_rbac-settled (proceed c, cache) s = refl

  after_signature-settled :
      (o : Outcome × NonceValidator) (s : Shared) (c : Context)
      → o.0 ≡ proceed c
      → result (after_signature server platform run req o s)
        ≡ settled (rbac_stage c s.cache).0 s.audit
  unfolding after_signature
  after_signature-settled (respond r, v) s c e = cc
  after_signature-settled (proceed c', v) s c e =
      let same : c' ≡ c = cc in
      rw (← same) (after_rbac-settled (rbac_stage c' s.cache) (record s { nonces = v }))

  -- The signature middleware's conditions, for a request that it verifies.
  abbrev pub IsVerified : Shared → Context → Type 0
  IsVerified s c =
      Verified platform.recover platform.decode run.verify_ms req (new_context run.request_id)
        s.nonces c

  pub handle_settled :
      (s : Shared) (c : Context)
      → IsVerified s c
      → result (handle server platform run req s) ≡ settled (rbac_stage c s.cache).0 s.audit
  unfolding handle
  handle_settled s c v = after_signature-settled _ s c (
      signature_proceed_of platform.recover platform.decode run.verify_ms run.reply_s req
        (new_context run.request_id) c s.nonces v)

  -- `encrypt` succeeds on every payload.
  abbrev pub Encrypts : Type 0
  Encrypts = (p : AuditPayload) → (sealed : String) × (platform.audit.encrypt p ≡ ok sealed)

  pub audit-Queued :
      (c : Context) (r : Ready) (answer : Reply) (w : World)
      → ready c ≡ some r
      → Encrypts
      → Queued r.agent r.signed.signature w (audit_middleware platform.audit run.audit c answer w)
  unfolding audit_middleware audit_entry audit_payload
  audit-Queued c r answer w full encrypts =
      let (status, body) = observed platform.audit answer in
      let p = audit_payload platform.audit run.audit c r status body in
      let (sealed, e) = encrypts p in
      (audit_entry platform.audit r p sealed, rw (full, e, audit_middleware) refl, refl, refl)
