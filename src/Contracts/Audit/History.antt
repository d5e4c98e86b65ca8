-- ===== src/Contracts/Audit/History.antt =====
-- What the audit log answers after any entries were recorded (contracts/Audit.sol).
use mathlib.Core.List.{append_assoc, append-nil}
use zuul_proxy.Prelude.{ℕ, String, ◌≡◌, refl, ap, ◌∙◌, sym, List, [], ◌∷◌, ◌++◌}
use zuul_proxy.Contracts.Audit.{
  AuditEntry, AuditContract, new_audit_contract, record_entry, get_entries_by_agent,
  get_entries_by_time_range,
}
use zuul_proxy.Prelude.Dict.{get}
use zuul_proxy.Contracts.Audit.Ranges.{range_page, get_entries_by_time_range-page}
use zuul_proxy.Contracts.Audit.Index.{
  IsIndexed, record_entry-IsIndexed, agent_page, get_entries_by_agent-page,
}

-- The log after some transactions, which come one after another.
unfoldable pub record_all : List AuditEntry → AuditContract → AuditContract
record_all [] c = c
record_all (e ∷ es) c =
    record_all es (record_entry e.timestamp e.agent e.encrypted_payload e.payload_hash c)

record_all-entries :
    (es : List AuditEntry) (c : AuditContract) → (record_all es c).entries ≡ c.entries ++ es
unfolding record_all record_entry
record_all-entries [] c = sym (append-nil c.entries)
record_all-entries (e ∷ es) c =
    record_all-entries es (record_entry e.timestamp e.agent e.encrypted_payload e.payload_hash c)
    ∙ append_assoc c.entries (e ∷ []) es

record_all-IsIndexed :
    (es : List AuditEntry) (c : AuditContract) → IsIndexed c → IsIndexed (record_all es c)
unfolding record_all
record_all-IsIndexed [] c h = h
record_all-IsIndexed (e ∷ es) c h =
    record_all-IsIndexed es (record_entry e.timestamp e.agent e.encrypted_payload e.payload_hash c)
      (record_entry-IsIndexed e.timestamp e.agent e.encrypted_payload e.payload_hash c h)

-- After any entries were recorded in a new log, a page of an agent's entries has this agent's
-- entries in the order in which they were recorded, from the offset on and as many as the limit
-- allows; a limit above 100 is refused.
pub get_entries_by_agent-record_all :
    (es : List AuditEntry) (agent : String) (offset limit : ℕ)
    → get_entries_by_agent agent offset limit (record_all es new_audit_contract)
      ≡ agent_page agent offset limit es
unfolding new_audit_contract get
get_entries_by_agent-record_all es agent offset limit =
    get_entries_by_agent-page agent offset limit (record_all es new_audit_contract)
      (record_all-IsIndexed es new_audit_contract (λ a. refl))
    ∙ ap (agent_page agent offset limit) (record_all-entries es new_audit_contract)

-- After any entries were recorded in a new log, a page of a time range has the entries of the range
-- in the order in which they were recorded, from the offset on and as many as the limit allows,
-- with no blank one; a limit above 100, and a start after the end, are refused.
pub get_entries_by_time_range-record_all :
    (es : List AuditEntry) (start end_time offset limit : ℕ)
    → get_entries_by_time_range start end_time offset limit (record_all es new_audit_contract)
      ≡ range_page start end_time offset limit es
unfolding new_audit_contract
get_entries_by_time_range-record_all es start end_time offset limit =
    get_entries_by_time_range-page start end_time offset limit (record_all es new_audit_contract)
    ∙ ap (range_page start end_time offset limit) (record_all-entries es new_audit_contract)
