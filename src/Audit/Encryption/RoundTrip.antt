-- ===== src/Audit/Encryption/RoundTrip.antt =====
-- What was encrypted is decrypted again (src/audit/encryption.ts).
use mathlib.Core.List.{append_assoc}
use zuul_proxy.Prelude.{
  ℕ, ◌+◌, ◌-◌, ◌*◌, String, ◌≡◌, refl, ◌++◌, some, length, length-append, take, drop, take-append,
  drop-append, arith, leb, inl, inr, Option-cases, if◌then◌else◌,
}
use zuul_proxy.Types.{ok}
use zuul_proxy.Audit.Payload.{AuditPayload}
use zuul_proxy.Audit.Encryption.{Bytes, Crypto, encrypt, decrypt}

-- What the program relies on for a payload: decoding gives back what was encoded, `unseal` gives
-- back what was sealed under the same key and nonce, and a tag has sixteen bytes. The text of the
-- payload parses to it again.
pub record IsLawful (c : Crypto) (p : AuditPayload) : Type 0 where
  pub utf8_back : c.from_utf8 (c.utf8 (c.stringify p)) ≡ c.stringify p
  pub base64_back : (b : Bytes) → c.from_base64 (c.base64 b) ≡ b
  pub hex_back : (b : Bytes) → c.from_hex (c.hex b) ≡ b
  pub parse_back : c.parse (c.stringify p) ≡ some p
  pub tag_length :
      (key iv m ciphertext tag : Bytes) → c.seal key iv m ≡ some (ciphertext, tag) → length tag ≡ 16
  pub unseal_back :
      (key iv m ciphertext tag : Bytes)
      → c.seal key iv m ≡ some (ciphertext, tag)
      → c.unseal key iv ciphertext tag ≡ some m

-- The parts of a sealed message, as `decrypt` cuts them out.
parts :
    (iv ciphertext tag : Bytes) (n : ℕ)
    → length iv ≡ 12
    → n ≡ length (iv ++ ciphertext)
    → (take 12 (iv ++ (ciphertext ++ tag)) ≡ iv)
      × (drop n (iv ++ (ciphertext ++ tag)) ≡ tag)
      × (drop 12 (take n (iv ++ (ciphertext ++ tag))) ≡ ciphertext)
parts iv ciphertext tag n twelve same =
    let whole = append_assoc iv ciphertext tag in
    (
      rw (← twelve) (take-append iv (ciphertext ++ tag)),
      rw (same, ← whole) (drop-append (iv ++ ciphertext) tag),
      rw (same, ← whole, take-append, ← twelve) (drop-append iv ciphertext),
    )

module _ (c : Crypto) (p : AuditPayload) (lawful : IsLawful c p) (key iv : Bytes)
    (twelve : length iv ≡ 12) where
  decrypt_sealed :
      (ciphertext tag : Bytes)
      → c.seal key iv (c.utf8 (c.stringify p)) ≡ some (ciphertext, tag)
      → decrypt c key (c.base64 (iv ++ (ciphertext ++ tag))) ≡ ok p
  unfolding decrypt
  decrypt_sealed ciphertext tag sealed =
      let n = length (iv ++ ciphertext) in
      let sixteen = lawful.tag_length key iv (c.utf8 (c.stringify p)) ciphertext tag sealed in
      let size : length (iv ++ (ciphertext ++ tag)) ≡ n + 16 = omega (
        arith,
        length-append {0} iv ciphertext,
        length-append {0} ciphertext tag,
        length-append {0} iv (ciphertext ++ tag),
        sixteen,
      ) in
      let cut : (if leb 16 (n + 16) then n + 16 - 16 else 2 * (n + 16) - 16) ≡ n = ground arith in
      let (first, last, middle) = parts iv ciphertext tag n twelve refl in
      rw
        (
          lawful.base64_back (iv ++ (ciphertext ++ tag)),
          size,
          cut,
          first,
          last,
          middle,
          lawful.unseal_back key iv (c.utf8 (c.stringify p)) ciphertext tag sealed,
          lawful.utf8_back,
          lawful.parse_back,
          decrypt,
        )
        refl

  -- Under the laws of the cipher and of the encodings, with a nonce of twelve bytes: a payload that
  -- was encrypted is decrypted, under the same key, to the same payload.
  pub decrypt-encrypt :
      (sealed : String) → encrypt c key iv p ≡ ok sealed → decrypt c key sealed ≡ ok p
  unfolding encrypt
  decrypt-encrypt sealed e = elim (Option-cases (c.seal key iv (c.utf8 (c.stringify p)))) [
    | inl fail ↦ absurd (cc (rw (fail, encrypt) at e))
    | inr ((ciphertext, tag), done) ↦
        let same : c.base64 (iv ++ (ciphertext ++ tag)) ≡ sealed = cc (rw (done, encrypt) at e) in
        rw (← same) (decrypt_sealed ciphertext tag done)
  ]

  -- What was encrypted is the base64 text of a buffer.
  pub encrypt-base64 :
      (sealed : String) → encrypt c key iv p ≡ ok sealed → (b : Bytes) × (c.base64 b ≡ sealed)
  unfolding encrypt
  encrypt-base64 sealed e = elim (Option-cases (c.seal key iv (c.utf8 (c.stringify p)))) [
    | inl fail ↦ absurd (cc (rw (fail, encrypt) at e))
    | inr ((ciphertext, tag), done) ↦ (iv ++ (ciphertext ++ tag), cc (rw (done, encrypt) at e))
  ]
