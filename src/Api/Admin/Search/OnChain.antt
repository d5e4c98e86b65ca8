-- ===== src/Api/Admin/Search/OnChain.antt =====
-- The audit search over the driver for Hedera and the audit contract (src/api/handlers/admin.ts,
-- src/chain/hedera.ts, contracts/Audit.sol).
use zuul_proxy.Prelude.{String, ◌≡◌, refl, List, [], Option, none, some, map}
use zuul_proxy.Prelude.Number.{pos, negsuc}
use zuul_proxy.Types.{Result, ok, err}
use zuul_proxy.Errors.{ZuulError}
use zuul_proxy.Chain.Hedera.{Decoded, empty_array, decoded, call_contract}
use zuul_proxy.Contracts.Audit
use zuul_proxy.Contracts.Audit.{AuditContract, get_entries_by_agent, get_entries_by_time_range}
use zuul_proxy.Api.Admin.Search.{
  Query, by_agent, by_time, Answer, entries, refused, ChainEntry, text,
}

-- viem's part of a read of the audit contract: `encodeFunctionData`, where `none` is a throw, the
-- node's answer, and `decodeFunctionResult`.
pub record Reader : Type 0 where
  pub encoded : Query → Option String
  pub sent : String → Option (Option String)
  pub decode : String → Option (List ChainEntry)

-- `entries.map` on what the driver gives.
abbrev answer_of : Result ZuulError (Decoded (List ChainEntry)) → Answer
answer_of (ok empty_array) = entries []
answer_of (ok (decoded l)) = entries l
answer_of (err e) = refused

-- The contract calls of the audit search on the driver for Hedera: the three functions of
-- `AUDIT_ABI` are there.
unfoldable pub hedera_call : Reader → Query → Answer
unfolding call_contract
hedera_call r q = answer_of (call_contract (r.encoded q) r.sent r.decode 3)

-- An entry of the contract, as viem decodes it.
abbrev pub decoded_entry : Audit.AuditEntry → ChainEntry
decoded_entry e = record {
  agent = e.agent;
  timestamp = e.timestamp;
  payload_hash = e.payload_hash;
  encrypted_payload = text e.encrypted_payload;
}

-- What viem and the node do for a query: the call is encoded, run on the contract, and the result
-- decoded.
pub record IsCarried (r : Reader) (q : Query) (l : List Audit.AuditEntry) : Type 0 where
  pub request : String
  pub data_hex : String
  pub asked : r.encoded q ≡ some request
  pub replied : r.sent request ≡ some (some data_hex)
  pub back : r.decode data_hex ≡ some (map decoded_entry l)

pub hedera_call-entries :
    (r : Reader) (q : Query) (l : List Audit.AuditEntry)
    → IsCarried r q l
    → hedera_call r q ≡ entries (map decoded_entry l)
unfolding hedera_call call_contract
hedera_call-entries r q l h = rw (h.asked, h.replied, h.back) refl

module _ (encode : String → Option String) (c : AuditContract) where
  -- What the contract gives for a query; `encode` is the address that viem reads a text as. A
  -- negative number is no `uint256`.
  abbrev pub contract_answer : Query → Option (List Audit.AuditEntry)
  contract_answer (by_agent agent (pos offset) (pos limit)) = elim (encode agent) [
    | none ↦ none
    | some a ↦ get_entries_by_agent a offset limit c
  ]
  contract_answer (by_agent agent (pos offset) (negsuc limit)) = none
  contract_answer (by_agent agent (negsuc offset) limit) = none
  contract_answer (by_time (pos s) (pos e) (pos offset) (pos limit)) =
      get_entries_by_time_range s e offset limit c
  contract_answer (by_time (pos s) (pos e) (pos offset) (negsuc limit)) = none
  contract_answer (by_time (pos s) (pos e) (negsuc offset) limit) = none
  contract_answer (by_time (pos s) (negsuc e) offset limit) = none
  contract_answer (by_time (negsuc s) e offset limit) = none

  -- The reader serves the contract's answer to a query.
  abbrev pub IsServing : Reader → Query → Type 0
  IsServing r q = (l : List Audit.AuditEntry) → contract_answer q ≡ some l → IsCarried r q l
