-- ===== src/Api/Admin/Search/Recovered.antt =====
-- From the encryption of a payload over the contract to the audit search (src/audit/encryption.ts,
-- src/audit/contract.ts, src/api/handlers/admin.ts).
use zuul_proxy.Prelude.{
  String, ◌≡◌, refl, true, false, length, ◌==◌, some, Bool-cases, inl, inr, eq_iff,
}
use zuul_proxy.Prelude.Text.{concat}
use zuul_proxy.Types.{AuditEntry, ok}
use zuul_proxy.Audit.Payload.{AuditPayload}
use zuul_proxy.Audit.Encryption.{Bytes, Crypto, encrypt}
use zuul_proxy.Audit.Encryption.RoundTrip.{IsLawful, decrypt-encrypt, encrypt-base64}
use zuul_proxy.Audit.Contract.{record_entry}
use zuul_proxy.Api.Admin.Search.{ChainEntry, text, to_base64, payload_fields, search_entry}

prefixed : (t : String) → (concat "0x" t == "") ≡ false
prefixed t = elim (Bool-cases (concat "0x" t == "")) [
  | inl blank ↦ absurd (cc ((eq_iff (concat "0x" t) "").0 blank))
  | inr filled ↦ filled
]

module _ (c : Crypto) (p : AuditPayload) (lawful : IsLawful c p) (key : Bytes) where
  to_base64-hex :
      (s : String) (b : Bytes)
      → c.base64 b ≡ s
      → to_base64 c key (concat "0x" (c.hex (c.from_base64 s))) ≡ s
  unfolding to_base64
  to_base64-hex s b e = rw (← e, lawful.base64_back b, lawful.hex_back b) refl

  -- Under the laws of the cipher and of the encodings, with a nonce of twelve bytes: a payload that
  -- was encrypted into an audit entry, and written to the chain as the contract's `recordEntry`, is
  -- what a search with `decrypt` shows in the entry that has this text.
  pub search_entry-record_entry :
      (iv : Bytes) (e : AuditEntry) (x : ChainEntry)
      → length iv ≡ 12
      → encrypt c key iv p ≡ ok e.encrypted_payload
      → x.encrypted_payload ≡ text (record_entry c e).encrypted_payload
      → (search_entry c key true x).payload ≡ some (some p)
  unfolding search_entry payload_fields record_entry
  search_entry-record_entry iv e x twelve sealed stored =
      let (b, same) = encrypt-base64 c p lawful key iv twelve e.encrypted_payload sealed in
      let back = decrypt-encrypt c p lawful key iv twelve e.encrypted_payload sealed in
      rw
        (
          stored,
          prefixed (c.hex (c.from_base64 e.encrypted_payload)),
          to_base64-hex e.encrypted_payload b same,
          back,
          record_entry,
        )
        refl
