-- ===== src/Tests/Contracts.antt =====
-- The contracts at concrete values.
use zuul_proxy.Prelude.{String, ◌≡◌, true, some, [], ◌∷◌, List}
use zuul_proxy.Contracts.Audit.{
  AuditEntry, new_audit_contract, get_entries_by_agent, get_entries_by_time_range,
}
use zuul_proxy.Contracts.Audit.History.{
  record_all, get_entries_by_agent-record_all, get_entries_by_time_range-record_all,
}
use zuul_proxy.Contracts.Rbac.{new_rbac_contract, get_agent_role}
use zuul_proxy.Contracts.Rbac.History.{Transaction, set_role, revoke, run, get_agent_role-run}

abbrev entry : String → String → AuditEntry
entry who payload = record {
  agent = who;
  encrypted_payload = payload;
  payload_hash = "0x4";
  timestamp = 1000;
}

abbrev late : AuditEntry
late = record (entry "0xa" "0x03") { timestamp = 2000 }

abbrev log : List AuditEntry
log = entry "0xa" "0x01" ∷ entry "0xb" "0x02" ∷ late ∷ []

get_entries_by_agent-record_all_example :
    get_entries_by_agent "0xa" 1 100 (record_all log new_audit_contract) ≡ some (late ∷ [])
get_entries_by_agent-record_all_example = get_entries_by_agent-record_all log "0xa" 1 100

get_entries_by_time_range-record_all_example :
    get_entries_by_time_range 1000 1500 1 1 (record_all log new_audit_contract)
    ≡ some (entry "0xb" "0x02" ∷ [])
get_entries_by_time_range-record_all_example =
    get_entries_by_time_range-record_all log 1000 1500 1 1

abbrev transactions : List Transaction
transactions = set_role "0xproxy" "0xa" "0x1" ∷ revoke "0xother" "0xa" ∷ []

get_agent_role-run_example :
    get_agent_role "0xa" (run transactions (new_rbac_contract "0xproxy")) ≡ ("0x1", true)
get_agent_role-run_example = get_agent_role-run "0xproxy" "0xa" transactions
