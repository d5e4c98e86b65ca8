-- ===== src/Audit/Payload.antt =====
-- src/audit/payload.ts: the record of one request, and the hashes of a record and of a body.
-- `sha256` stands for the hexadecimal digest of node's `createHash('sha256')`.
use zuul_proxy.Prelude.{ℕ, ◌/◌, String}
use zuul_proxy.Prelude.Text.{concat}
use zuul_proxy.Types.{PermissionAction}

pub record AuditPayload : Type 0 where
  pub id : String
  pub timestamp : ℕ
  pub agent : String
  pub tool : String
  pub action : PermissionAction
  pub endpoint : String
  pub method : String
  pub status : ℕ
  pub error_type : String
  pub latency_ms : ℕ
  pub request_hash : String
  pub response_hash : String

-- `random_hex` is the hexadecimal text of `randomBytes(32)`.
unfoldable pub build_audit_payload :
    String
    → ℕ
    → String
    → String
    → PermissionAction
    → String
    → String
    → ℕ
    → String
    → ℕ
    → String
    → String
    → AuditPayload
build_audit_payload random_hex now_ms agent tool action endpoint method status error_type latency_ms
      request_hash response_hash =
    record {
      id = concat "0x" random_hex;
      timestamp = now_ms / 1000;
      agent = agent;
      tool = tool;
      action = action;
      endpoint = endpoint;
      method = method;
      status = status;
      error_type = error_type;
      latency_ms = latency_ms;
      request_hash = request_hash;
      response_hash = response_hash;
    }

-- `stringify` stands for `JSON.stringify` of the payload's twelve fields.
unfoldable pub hash_payload : (String → String) → (AuditPayload → String) → AuditPayload → String
hash_payload sha256 stringify payload = concat "0x" (sha256 (stringify payload))

-- The `unknown` argument of `hashBody`: null or undefined, a string, a buffer (its bytes as a
-- text), or any other object, with what `JSON.stringify`, or else `String`, makes of it.
pub data BodyValue : Type 0 where
  absent : BodyValue
  text_body : String → BodyValue
  buffer : String → BodyValue
  object : String → BodyValue

unfoldable pub hash_body : (String → String) → BodyValue → String
hash_body sha256 absent = concat "0x" (sha256 "")
hash_body sha256 (text_body s) = concat "0x" (sha256 s)
hash_body sha256 (buffer s) = concat "0x" (sha256 s)
hash_body sha256 (object serialized) = concat "0x" (sha256 serialized)
