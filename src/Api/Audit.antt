-- ===== src/Api/Audit.antt =====
-- src/api/middleware/audit.ts: what the audit middleware queues once the handler has answered. The
-- server gives it no proxy key (src/api/server.ts), so the proxy's signature is the constant "0x".
-- A throw inside it, which it logs and swallows, is not modelled.
use zuul_proxy.Prelude.{
  ℕ, String, Bool, true, false, ◌&&◌, Option, none, some, ltb, leb, if◌then◌else◌,
}
use zuul_proxy.Prelude.Text.{concat, show}
use zuul_proxy.Types.{AuditEntry, Result, ok, err}
use zuul_proxy.Audit.Payload.{
  AuditPayload, build_audit_payload, BodyValue, text_body, hash_body, hash_payload,
}
use zuul_proxy.Audit.Queue.{World, enqueue}
use zuul_proxy.Api.Context.{Context, Body}
use zuul_proxy.Api.Forward.{Reply, reply, nothing, Ready, ready}

-- What the middleware calls: node's hash (its hexadecimal digest), `JSON.stringify` of a payload,
-- `EncryptionService.encrypt`, the text of a response's body, and the status and text that hono has
-- for a handler that answers with nothing.
pub record AuditTools : Type 0 where
  pub sha256 : String → String
  pub stringify : AuditPayload → String
  pub encrypt : AuditPayload → Result String String
  pub serialize : Body → String
  pub unanswered : ℕ → ℕ × String

-- What the run of one request reads: the random identifier, the clock and the latency, and the body
-- of the raw request.
pub record AuditInput : Type 0 where
  pub random_hex : String
  pub now_ms : ℕ
  pub latency_ms : ℕ
  pub request_body : BodyValue

-- `context.res.status` and the text of `context.res`.
unfoldable pub observed : AuditTools → Reply → ℕ × String
observed t (reply r) = (r.status, t.serialize r.body)
observed t (nothing status) = t.unanswered status

-- `flag` is truthy.
abbrev is_set : {A : Type 0} → Option A → Bool
is_set none = false
is_set (some a) = true

unfoldable pub error_type : Context → ℕ → String
error_type c status =
    if leb 200 status && ltb status 300
    then ""
    else if is_set c.unknown_tool
    then "request/unknown_tool"
    else if is_set c.agent_revoked
    then "permission/agent_revoked"
    else if is_set c.permission_denied
    then "permission/no_action_access"
    else if leb 400 status && ltb status 500
    then concat "http_" (show status)
    else if leb 500 status
    then "service/upstream_error"
    else concat "http_" (show status)

unfoldable pub audit_payload : AuditTools → AuditInput → Context → Ready → ℕ → String → AuditPayload
unfolding error_type
audit_payload t i c r status body =
    build_audit_payload i.random_hex i.now_ms r.agent r.tool r.action r.signed.target_url
      r.signed.method status (error_type c status) i.latency_ms (hash_body t.sha256 i.request_body)
      (hash_body t.sha256 (text_body body))

unfoldable pub audit_entry : AuditTools → Ready → AuditPayload → String → AuditEntry
unfolding hash_payload
audit_entry t r p encrypted = record {
  audit_id = p.id;
  agent = r.agent;
  timestamp = p.timestamp;
  encrypted_payload = encrypted;
  payload_hash = hash_payload t.sha256 t.stringify p;
  agent_signature = r.signed.signature;
  proxy_signature = "0x";
}

-- What runs after `next()`; `recoveredAddress && signedRequest && toolKey && action` is the test of
-- the forward handler.
unfoldable pub audit_middleware : AuditTools → AuditInput → Context → Reply → World → World
unfolding audit_payload audit_entry
audit_middleware t i c answer w = elim (ready c) [
  | none ↦ w
  | some r ↦
      let (status, body) = observed t answer in
      let payload = audit_payload t i c r status body in
      elim (t.encrypt payload) [
        | err _ ↦ w
        | ok encrypted ↦ enqueue (audit_entry t r payload encrypted) w
      ]
]
