-- ===== src/Tests/Encryption.antt =====
-- Encryption, and the audit search, at concrete values.
use zuul_proxy.Prelude.{String, ◌≡◌, refl, [], ◌∷◌, ◌++◌, some, true}
use zuul_proxy.Prelude.Number.{pos}
use zuul_proxy.Types.{AuditEntry, ok}
use zuul_proxy.Audit.Encryption.{encrypt, decrypt}
use zuul_proxy.Audit.Encryption.RoundTrip.{decrypt-encrypt}
use zuul_proxy.Audit.Contract.{record_entry}
use zuul_proxy.Api.Admin.Search.{ChainEntry, text}
use zuul_proxy.Tests.Data.{agent}
use zuul_proxy.Prelude.Dict.{get, set}
use zuul_proxy.Contracts.Audit
use zuul_proxy.Contracts.Audit.{get_entries_by_agent, entries_from, new_audit_contract}
use zuul_proxy.Contracts.Audit.History.{record_all}
use zuul_proxy.Api.Admin.Search.{AuditSearchResult, by_agent, perform_audit_search}
use zuul_proxy.Api.Admin.Search.OnChain.{Reader, hedera_call, IsServing}
use zuul_proxy.Api.Admin.Search.Logged.{
  Logged, stored, written, log, shown, perform_audit_search-log,
}
use zuul_proxy.Tests.Admin.{params}
use zuul_proxy.Tests.Codec.{payload, iv, crypto, crypto-IsLawful, sixteen}

abbrev sealed : String
sealed = crypto.base64 (iv ++ ((7 ∷ []) ++ sixteen))

decrypt-encrypt_example : decrypt crypto [] sealed ≡ ok payload
unfolding encrypt
decrypt-encrypt_example = decrypt-encrypt crypto payload crypto-IsLawful [] iv refl sealed refl

abbrev entry : AuditEntry
entry = record {
  audit_id = "0x1";
  agent = agent;
  timestamp = 1000;
  encrypted_payload = sealed;
  payload_hash = "0x4";
  agent_signature = "0x5";
  proxy_signature = "";
}

abbrev on_chain : ChainEntry
unfolding record_entry
on_chain = record {
  agent = agent;
  timestamp = 1001;
  payload_hash = "0x4";
  encrypted_payload = text (record_entry crypto entry).encrypted_payload;
}

-- The entry in the log of the contract, with one of another agent.
abbrev logged : Logged
logged = record { payload = payload; iv = iv; entry = entry; address = agent; at = 1001 }

abbrev other : Logged
other = record {
  payload = payload;
  iv = iv;
  entry = record entry { agent = "0x9" };
  address = "0x9";
  at = 1000;
}

abbrev on_hedera : Reader
unfolding record_entry
on_hedera = record {
  encoded = λ q. some "call";
  sent = λ request. some (some "data");
  decode = λ data_hex. some (on_chain ∷ []);
}

serving :
    IsServing
      (λ s. some s)
      (log crypto (λ s. some s) (other ∷ logged ∷ []))
      on_hedera
      (by_agent agent (pos 0) (pos 100))
unfolding written record_entry get_entries_by_agent entries_from record_all Audit.record_entry
    new_audit_contract get set
serving l e = record {
  request = "call";
  data_hex = "data";
  asked = refl;
  replied = refl;
  back = let only : stored crypto logged ∷ [] ≡ l = cc in rw (← only) refl;
}

perform_audit_search-log_example :
    (res : AuditSearchResult) × (perform_audit_search crypto []
        (hedera_call on_hedera)
        (record params { decrypt = true })
      ≡ ok res)
    × (shown res.entries ≡ some (some payload) ∷ [])
unfolding encrypt record_entry
perform_audit_search-log_example =
    perform_audit_search-log crypto [] (λ s. some s) on_hedera (record params { decrypt = true })
      agent agent (other ∷ logged ∷ [])
      (
        record { lawful = crypto-IsLawful; twelve = refl; sealed = refl; encoded = refl },
        (record { lawful = crypto-IsLawful; twelve = refl; sealed = refl; encoded = refl }, tt),
      )
      serving refl refl refl refl
