-- ===== src/Tests/Codec.antt =====
-- A cipher and codes for the tests: a byte n is the letter a, n times, and then b.
use Prim.Native.Char.{code}
use zuul_proxy.Prelude.{
  ℕ, zero, suc, ◌+◌, String, ◌≡◌, refl, ap, ◌∙◌, [], ◌∷◌, some, arith, eqb, if◌then◌else◌,
}
use zuul_proxy.Prelude.Text.{concat}
use zuul_proxy.Types.{read}
use zuul_proxy.Audit.Payload.{AuditPayload}
use zuul_proxy.Audit.Encryption.{Bytes, Crypto}
use zuul_proxy.Audit.Encryption.RoundTrip.{IsLawful}

abbrev letters : ℕ → String → String
letters zero s = concat "b" s
letters (suc n) s = concat "a" (letters n s)

abbrev encode : Bytes → String
encode [] = ""
encode (n ∷ l) = letters n (encode l)

abbrev decode_from : ℕ → String → Bytes
decode_from n String.[] = []
decode_from n (String.◌∷◌ c s) =
    if eqb (code c) b'a' then decode_from (suc n) s else n ∷ decode_from 0 s

decode-letters : (n m : ℕ) (s : String) → decode_from m (letters n s) ≡ (m + n) ∷ decode_from 0 s
decode-letters zero m s = ap (λ k. k ∷ decode_from 0 s) (omega arith)
decode-letters (suc n) m s =
    decode-letters n (suc m) s ∙ ap (λ k. k ∷ decode_from 0 s) (omega arith)

decode-encode : (l : Bytes) → decode_from 0 (encode l) ≡ l
decode-encode [] = refl
decode-encode (n ∷ l) =
    let same : 0 + n ≡ n = omega arith in
    decode-letters n 0 (encode l) ∙ rw (same, decode-encode l) refl

abbrev pub payload : AuditPayload
payload = record {
  id = "0x1";
  timestamp = 1000;
  agent = "a";
  tool = "github";
  action = read;
  endpoint = "/users";
  method = "GET";
  status = 200;
  error_type = "";
  latency_ms = 5;
  request_hash = "0x2";
  response_hash = "0x3";
}

abbrev pub sixteen : Bytes
sixteen = 1 ∷ 2 ∷ 3 ∷ 4 ∷ 5 ∷ 6 ∷ 7 ∷ 8 ∷ 1 ∷ 2 ∷ 3 ∷ 4 ∷ 5 ∷ 6 ∷ 7 ∷ 8 ∷ []

abbrev pub iv : Bytes
iv = 1 ∷ 2 ∷ 3 ∷ 4 ∷ 5 ∷ 6 ∷ 7 ∷ 8 ∷ 9 ∷ 10 ∷ 11 ∷ 12 ∷ []

abbrev pub crypto : Crypto
crypto = record {
  seal = λ key iv m. some (m, sixteen);
  unseal = λ key iv ciphertext tag. some ciphertext;
  utf8 = λ s. 7 ∷ [];
  from_utf8 = λ b. "p";
  base64 = encode;
  from_base64 = decode_from 0;
  hex = encode;
  from_hex = decode_from 0;
  stringify = λ p. "p";
  parse = λ s. some payload;
}

pub crypto-IsLawful : IsLawful crypto payload
crypto-IsLawful = record {
  utf8_back = refl;
  base64_back = decode-encode;
  hex_back = decode-encode;
  parse_back = refl;
  tag_length = λ key iv m ciphertext tag e. let same : sixteen ≡ tag = cc in rw (← same) refl;
  unseal_back = λ key iv m ciphertext tag e. cc;
}
