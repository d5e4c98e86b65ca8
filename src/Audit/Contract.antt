-- ===== src/Audit/Contract.antt =====
-- src/audit/contract.ts: the writer of audit entries. `written` is what the chain driver's
-- `writeContract` does: it returns a result, or throws a message.
use zuul_proxy.Prelude.{String, [], ◌∷◌}
use zuul_proxy.Prelude.Text.{concat}
use zuul_proxy.Types.{AuditEntry, Result, err, text}
use zuul_proxy.Errors.{ZuulError, new_service_error, minus}
use zuul_proxy.Audit.Encryption.{Crypto}

-- The arguments of `recordEntry`.
pub record RecordEntry : Type 0 where
  pub agent : String
  pub encrypted_payload : String
  pub payload_hash : String

pub data Written : Type 0 where
  returned : Result ZuulError String → Written
  thrown : String → Written

unfoldable pub record_entry : Crypto → AuditEntry → RecordEntry
record_entry c e = record {
  agent = e.agent;
  encrypted_payload = concat "0x" (c.hex (c.from_base64 e.encrypted_payload));
  payload_hash = e.payload_hash;
}

unfoldable pub after_write : Written → Result ZuulError String
unfolding new_service_error
after_write (returned r) = r
after_write (thrown message) = err (
    new_service_error "Audit write failed" (minus 32022) 503 "service/unavailable"
      (("reason", text message) ∷ []))

-- `logAudit`, with the call that it makes.
unfoldable pub log_audit :
    Crypto → (RecordEntry → Written) → AuditEntry → Result ZuulError String × RecordEntry
unfolding after_write record_entry
log_audit c write e = (after_write (write (record_entry c e)), record_entry c e)
