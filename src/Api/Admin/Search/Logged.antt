-- ===== src/Api/Admin/Search/Logged.antt =====
-- What an audit search for an agent shows of the entries that were logged (src/audit/encryption.ts,
-- src/audit/contract.ts, src/api/handlers/admin.ts, src/chain/hedera.ts, contracts/Audit.sol).
use zuul_proxy.Prelude.{
  ℕ, zero, suc, String, ◌≡◌, refl, ◌∙◌, ap, true, false, List, [], ◌∷◌, Option, none, some, map,
  All, length, take, ◌==◌, Bool-cases, inl, inr, if◌then◌else◌,
}
use zuul_proxy.Prelude.Number.{pos}
use zuul_proxy.Types
use zuul_proxy.Types.{ok}
use zuul_proxy.Audit.Payload.{AuditPayload}
use zuul_proxy.Audit.Encryption.{Bytes, Crypto, encrypt}
use zuul_proxy.Audit.Encryption.RoundTrip.{IsLawful}
use zuul_proxy.Audit.Contract.{record_entry}
use zuul_proxy.Contracts.Audit
use zuul_proxy.Contracts.Audit.{AuditContract, new_audit_contract}
use zuul_proxy.Contracts.Audit.Index.{of_agent}
use zuul_proxy.Contracts.Audit.History.{record_all, get_entries_by_agent-record_all}
use zuul_proxy.Api.Admin.Search.{
  AuditSearchParams, AuditSearchResult, SearchEntry, by_agent, entries, search_entry, after_call,
  search_by, perform_audit_search,
}
use zuul_proxy.Api.Admin.Search.Recovered.{search_entry-record_entry}
use zuul_proxy.Api.Admin.Search.OnChain.{
  Reader, hedera_call, decoded_entry, contract_answer, IsServing, hedera_call-entries,
}

-- A payload that was logged: its nonce, the audit entry, the address that viem reads the entry's
-- agent as, and the time of its block.
pub record Logged : Type 0 where
  pub payload : AuditPayload
  pub iv : Bytes
  pub entry : Types.AuditEntry
  pub address : String
  pub at : ℕ

-- The entries of an address.
abbrev pub logged_by : String → List Logged → List Logged
logged_by a [] = []
logged_by a (l ∷ ls) = let rest = logged_by a ls in if l.address == a then l ∷ rest else rest

-- The payloads that a result shows.
abbrev pub shown : List SearchEntry → List (Option (Option AuditPayload))
shown es = map (λ (e : SearchEntry). e.payload) es

abbrev pub in_clear : List Logged → List (Option (Option AuditPayload))
in_clear ls = map (λ (l : Logged). some (some l.payload)) ls

module _ (c : Crypto) where
  -- What the contract is to store of it.
  abbrev pub stored : Logged → Audit.AuditEntry
  stored l = record {
    agent = l.address;
    encrypted_payload = (record_entry c l.entry).encrypted_payload;
    payload_hash = (record_entry c l.entry).payload_hash;
    timestamp = l.at;
  }

  module _ (encode : String → Option String) where
    -- The calls that the writer makes for the entries: `recordEntry` with the arguments that it
    -- passes on; where viem cannot encode the agent it throws, and nothing is recorded.
    unfoldable pub written : List Logged → List Audit.AuditEntry
    unfolding record_entry
    written [] = []
    written (l ∷ ls) =
        let rest = written ls in
        let arguments = record_entry c l.entry in
        elim (encode arguments.agent) [
          | none ↦ rest
          | some a ↦
              record {
                agent = a;
                encrypted_payload = arguments.encrypted_payload;
                payload_hash = arguments.payload_hash;
                timestamp = l.at;
              }
              ∷ rest
        ]

    -- The log that the contract holds.
    abbrev pub log : List Logged → AuditContract
    log ls = record_all (written ls) new_audit_contract

  of_agent-stored :
      (a : String) (ls : List Logged) → of_agent a (map stored ls) ≡ map stored (logged_by a ls)
  of_agent-stored a [] = refl
  of_agent-stored a (l ∷ ls) = elim (Bool-cases (l.address == a)) [
    | inl its ↦ rw (its) (ap (◌∷◌ (stored l)) (of_agent-stored a ls))
    | inr others ↦ rw (others) (of_agent-stored a ls)
  ]

  take-stored : (n : ℕ) (ls : List Logged) → take n (map stored ls) ≡ map stored (take n ls)
  take-stored zero ls = refl
  take-stored (suc n) [] = refl
  take-stored (suc n) (l ∷ ls) = ap (◌∷◌ (stored l)) (take-stored n ls)

module _ (c : Crypto) (key : Bytes) (encode : String → Option String) where
  pub record IsLogged (l : Logged) : Type 0 where
    pub lawful : IsLawful c l.payload
    pub twelve : length l.iv ≡ 12
    pub sealed : encrypt c key l.iv l.payload ≡ ok l.entry.encrypted_payload
    pub encoded : encode l.entry.agent ≡ some l.address

  All-logged_by : (a : String) (ls : List Logged) → All IsLogged ls → All IsLogged (logged_by a ls)
  All-logged_by a [] h = tt
  All-logged_by a (l ∷ ls) (h, k) = elim (Bool-cases (l.address == a)) [
    | inl its ↦ rw (its) (h, All-logged_by a ls k)
    | inr others ↦ rw (others) (All-logged_by a ls k)
  ]

  All-take : (n : ℕ) (ls : List Logged) → All IsLogged ls → All IsLogged (take n ls)
  All-take zero ls h = tt
  All-take (suc n) [] h = tt
  All-take (suc n) (l ∷ ls) (h, k) = (h, All-take n ls k)

  written-stored : (ls : List Logged) → All IsLogged ls → written c encode ls ≡ map (stored c) ls
  unfolding written record_entry
  written-stored [] h = refl
  written-stored (l ∷ ls) (h, k) = rw (written, h.encoded, written-stored ls k) refl

  shown-stored :
      (ls : List Logged)
      → All IsLogged ls
      → shown (map (search_entry c key true) (map decoded_entry (map (stored c) ls))) ≡ in_clear ls
  shown-stored [] h = refl
  shown-stored (l ∷ ls) (h, k) =
      let this =
        search_entry-record_entry c l.payload h.lawful key l.iv l.entry (decoded_entry (stored c l))
          h.twelve h.sealed refl in
      rw (this, shown-stored ls k) refl

  module _ (r : Reader) (p : AuditSearchParams) (agent a : String) (ls : List Logged) where
    page : List Logged
    page = take 100 (logged_by a ls)

    log-page :
        encode agent ≡ some a
        → All IsLogged ls
        → contract_answer encode (log c encode ls) (by_agent agent (pos 0) (pos 100))
          ≡ some (map (stored c) page)
    unfolding page written
    log-page encoded logged =
        rw (contract_answer, encoded, written-stored ls logged)
          (get_entries_by_agent-record_all (map (stored c) ls) a 0 100
            ∙ rw (of_agent-stored c a ls) (ap some (take-stored c 100 (logged_by a ls))))

    after_call-shown :
        (l : List Logged)
        → All IsLogged l
        → p.decrypt ≡ true
        → (res : AuditSearchResult) × (after_call c key p
              (entries (map decoded_entry (map (stored c) l)))
            ≡ ok res)
          × (shown res.entries ≡ in_clear l)
    unfolding after_call
    after_call-shown l h reveal = (_, refl, rw (reveal) (shown-stored l h))

    search_by-agent :
        (o : Option String)
        → o ≡ some agent
        → (agent == "") ≡ false
        → search_by c key (hedera_call r) p o
          ≡ after_call c key p (hedera_call r (by_agent agent (pos 0) (pos 100)))
    search_by-agent o asked filled = rw (asked, filled) refl

    -- Payloads were encrypted with nonces of twelve bytes and recorded by the audit contract, one
    -- after another, as the contract's writer passes them on; viem and the node serve the
    -- contract's answers. Then a search with `decrypt` for an agent, on the driver for Hedera,
    -- succeeds and shows in clear the first hundred payloads of the entries of this agent, in the
    -- order in which they were recorded, whichever spelling of its address is asked for.
    pub perform_audit_search-log :
        All IsLogged ls
        → IsServing encode (log c encode ls) r (by_agent agent (pos 0) (pos 100))
        → p.agent ≡ some agent
        → (agent == "") ≡ false
        → p.decrypt ≡ true
        → encode agent ≡ some a
        → (res : AuditSearchResult) × (perform_audit_search c key (hedera_call r) p ≡ ok res)
          × (shown res.entries ≡ in_clear (take 100 (logged_by a ls)))
    unfolding perform_audit_search page
    perform_audit_search-log logged serving asked filled reveal encoded =
        let carried = serving (map (stored c) page) (log-page encoded logged) in
        let (res, done, same) =
          after_call-shown page (All-take 100 (logged_by a ls) (All-logged_by a ls logged))
            reveal in
        let called =
          hedera_call-entries r (by_agent agent (pos 0) (pos 100)) (map (stored c) page) carried in
        (res, search_by-agent p.agent asked filled ∙ ap (after_call c key p) called ∙ done, same)
