-- ===== src/Audit/Encryption.antt =====
-- src/audit/encryption.ts: the encryption of audit payloads. A buffer is the list of its bytes.
-- Node's `crypto` and `Buffer` and the JSON functions are the record `Crypto`, whose laws say what
-- they document.
pub mod RoundTrip
use zuul_proxy.Prelude.{
  ℕ, ◌*◌, ◌-◌, String, List, [], ◌++◌, Option, none, some, length, take, drop, leb, eqb, ◌==◌,
  if◌then◌else◌,
}
use zuul_proxy.Types.{Result, ok, err}
use zuul_proxy.Errors.{ZuulError, new_service_error, minus}
use zuul_proxy.Audit.Payload.{AuditPayload}

abbrev pub Bytes : Type 0
Bytes = List ℕ

-- `seal` is AES-256-GCM under a key and a nonce, with its tag, and `unseal` the way back; `none` is
-- a throw, of `unseal` also where the tag does not fit.
pub record Crypto : Type 0 where
  pub seal : Bytes → Bytes → Bytes → Option (Bytes × Bytes)
  pub unseal : Bytes → Bytes → Bytes → Bytes → Option Bytes
  pub utf8 : String → Bytes
  pub from_utf8 : Bytes → String
  pub base64 : Bytes → String
  pub from_base64 : String → Bytes
  pub hex : Bytes → String
  pub from_hex : String → Bytes
  pub stringify : AuditPayload → String
  pub parse : String → Option AuditPayload

internal_error : String → ZuulError
unfolding new_service_error
internal_error message = new_service_error message (minus 32603) 500 "internal/error" []

module _ (c : Crypto) where
  -- The constructor: the key from AUDIT_ENCRYPTION_KEY; an `err` is what it throws.
  unfoldable pub new_encryption_service : Option String → Result ZuulError Bytes
  unfolding internal_error
  new_encryption_service none =
      err (internal_error "Missing AUDIT_ENCRYPTION_KEY environment variable")
  new_encryption_service (some key_hex) =
      if key_hex == ""
      then err (internal_error "Missing AUDIT_ENCRYPTION_KEY environment variable")
      else let key = c.from_hex key_hex in
        if eqb (length key) 32
        then ok key
        else err (internal_error "AUDIT_ENCRYPTION_KEY must be 64-char hex string (256 bits)")

  -- `iv` is the text of `randomBytes(12)`.
  unfoldable pub encrypt : Bytes → Bytes → AuditPayload → Result ZuulError String
  unfolding internal_error
  encrypt key iv payload = elim (c.seal key iv (c.utf8 (c.stringify payload))) [
    | none ↦ err (internal_error "Failed to encrypt audit payload")
    | some (ciphertext, tag) ↦ ok (c.base64 (iv ++ (ciphertext ++ tag)))
  ]

  -- The index that `subarray` makes of `length - 16`: a negative one counts from the end, and stops
  -- at the start.
  abbrev tag_start : ℕ → ℕ
  tag_start n = if leb 16 n then n - 16 else 2 * n - 16

  unfoldable pub decrypt : Bytes → String → Result ZuulError AuditPayload
  unfolding internal_error
  decrypt key encrypted =
      let combined = c.from_base64 encrypted in
      let cut = tag_start (length combined) in
      let iv = take 12 combined in
      let tag = drop cut combined in
      let ciphertext = drop 12 (take cut combined) in
      elim (c.unseal key iv ciphertext tag) [
        | none ↦ err (internal_error "Failed to decrypt audit payload")
        | some plaintext ↦ elim (c.parse (c.from_utf8 plaintext)) [
          | none ↦ err (internal_error "Failed to decrypt audit payload")
          | some payload ↦ ok payload
        ]
      ]
