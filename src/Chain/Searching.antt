-- ===== src/Chain/Searching.antt =====
-- The audit search over the drivers that simulate a contract (src/api/handlers/admin.ts,
-- src/chain/evm.ts).
use zuul_proxy.Prelude.{String, ◌≡◌, refl, ◌⊎◌, inl, inr, Option, none, some, Bool-cases, ◌==◌}
use zuul_proxy.Prelude.Number.{Number, nan, int}
use zuul_proxy.Types.{Result, ok, err}
use zuul_proxy.Errors.{ZuulError}
use zuul_proxy.Audit.Encryption.{Bytes, Crypto}
use zuul_proxy.Api.Admin.Search.{
  AuditSearchParams, Query, by_agent, by_time, Answer, refused, broken, AuditSearchResult, internal,
  no_filter, after_call, time_call, time_search, search_by, perform_audit_search,
}
use zuul_proxy.Chain.Evm.{EvmChainDriver, Simulated, empty_object, call_contract}

-- The function of the audit contract that a query calls.
abbrev pub function_name : Query → String
function_name (by_agent agent offset limit) = "getEntriesByAgent"
function_name (by_time s e offset limit) = "getEntriesByTimeRange"

-- The empty object has no `map`.
abbrev pub answer_of : Result ZuulError Simulated → Answer
answer_of (ok empty_object) = broken
answer_of (err e) = refused

-- The calls of the audit search on a driver for EVM chains.
unfoldable pub evm_call : EvmChainDriver → String → Query → Answer
unfolding call_contract
evm_call d contract query = answer_of (call_contract d contract (function_name query))

module _ (c : Crypto) (key : Bytes) (d : EvmChainDriver) (contract : String)
    (p : AuditSearchParams) where
  -- No filter, or an internal error.
  abbrev IsHopeless : Result ZuulError AuditSearchResult → Type 0
  IsHopeless r = (r ≡ err no_filter) ⊎ (r ≡ err internal)

  time_search-IsHopeless :
      (s e : Option Number) → IsHopeless (time_search c key (evm_call d contract) p s e)
  unfolding time_call after_call evm_call
  time_search-IsHopeless none e = inl refl
  time_search-IsHopeless (some s) none = inl refl
  time_search-IsHopeless (some nan) (some e) = inr refl
  time_search-IsHopeless (some (int s)) (some nan) = inr refl
  time_search-IsHopeless (some (int s)) (some (int e)) = inr refl

  search_by-IsHopeless :
      (o : Option String) → IsHopeless (search_by c key (evm_call d contract) p o)
  unfolding after_call evm_call
  search_by-IsHopeless none = time_search-IsHopeless p.start_time p.end_time
  search_by-IsHopeless (some agent) = elim (Bool-cases (agent == "")) [
    | inl blank ↦ rw (blank) (time_search-IsHopeless p.start_time p.end_time)
    | inr filled ↦ rw (filled) (inr refl)
  ]

  -- On the driver for Base, Arbitrum and Optimism no audit search gives entries: each one ends with
  -- the error for a missing filter, or with the internal error, since the driver answers every read
  -- of a contract with an empty object.
  pub perform_audit_search_evm :
      (perform_audit_search c key (evm_call d contract) p ≡ err no_filter)
      ⊎ (perform_audit_search c key (evm_call d contract) p ≡ err internal)
  unfolding perform_audit_search
  perform_audit_search_evm = search_by-IsHopeless p.agent
