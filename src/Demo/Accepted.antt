-- ===== src/Demo/Accepted.antt =====
-- What the client sends is admissible to the proxy (demo/agent.ts, src/api/middleware/signature.ts,
-- src/auth/signature.ts).
use zuul_proxy.Prelude.{
  ℕ, ◌/◌, String, ◌≡◌, ◌≢◌, refl, true, List, [], Option, none, some, arith, ltb, Bool-cases, inl,
  inr, eq_iff, ◌==◌,
}
use zuul_proxy.Prelude.Dict.{Dict, get}
use zuul_proxy.Prelude.Number.{nat}
use zuul_proxy.Prelude.Text.{codes, concat, js_length, show, matches}
use zuul_proxy.Prelude.ParseInt.Decimal.{Digits, one, more, Digits-show, parse_int-show}
use zuul_proxy.Types.{HttpMethod, SignedRequest, text}
use zuul_proxy.Auth.Guards.{is_http_method, is_agent_address, is_raw_signature_headers, method_text}
use zuul_proxy.Auth.Signature.{Payload, NonceValidator, build_canonical_payload, seconds}
use zuul_proxy.Auth.Signature.Validators.{stored, IsFresh}
use zuul_proxy.Auth.Acceptance.{IsAdmissible}
use zuul_proxy.Api.Context.{HttpRequest}
use zuul_proxy.Api.Signature.{as_values, forward_path, one_line, build_signed_request}
use zuul_proxy.Demo.Agent.{Account, sign_request, call_tool}

-- A text has a length.
js_length-filled : (s : String) → s ≢ "" → ltb 0 (js_length s) ≡ true
unfolding js_length
js_length-filled String.[] h = absurd (h refl)
js_length-filled (String.◌∷◌ c s) h = ground arith

Digits-filled : (l : List ℕ) → Digits l → l ≢ []
Digits-filled _ (one c h) e = cc
Digits-filled _ (more c d s h k) e = cc

show_filled : (n : ℕ) → show n ≢ ""
show_filled n h = Digits-filled (codes (show n)) (Digits-show n) (rw (h) refl)

pub is_http_method-method_text : (m : HttpMethod) → is_http_method (text (method_text m)) ≡ true
unfolding is_http_method
is_http_method-method_text HttpMethod.get = refl
is_http_method-method_text HttpMethod.head = refl
is_http_method-method_text HttpMethod.post = refl
is_http_method-method_text HttpMethod.put = refl
is_http_method-method_text HttpMethod.patch = refl
is_http_method-method_text HttpMethod.delete = refl

pub forward_path-concat :
    (s : String) → s ≢ "" → one_line s ≡ true → forward_path (concat "/forward/" s) ≡ some s
unfolding forward_path
forward_path-concat s filled h = elim (Bool-cases (s == "")) [
  | inl blank ↦ absurd (filled ((eq_iff s "").0 blank))
  | inr other ↦ rw (other, h, forward_path) refl
]

address_filled : (s : String) → is_agent_address (text s) ≡ true → s ≢ ""
unfolding is_agent_address matches
address_filled s h blank = cc (rw (blank) at h)

module _ (recover : Payload → String → Option String) (decode : String → Option String)
    (account : Account) (encode : String → String) (method : HttpMethod) (url nonce body : String)
    (now_ms : ℕ) (added : Dict String) where
  abbrev payload : Payload
  payload = build_canonical_payload (method_text method) url nonce (nat (now_ms / 1000))

  -- What the client has of viem and of the encoding of its URL: the address of its signatures is
  -- its own, and the encoding is one line that is decoded again.
  pub record IsClient : Type 0 where
    pub address : is_agent_address (text account.address) ≡ true
    pub recovered : recover payload (account.sign_message payload) ≡ some account.address
    pub signature : account.sign_message payload ≢ ""
    pub nonce_filled : nonce ≢ ""
    pub encoded : encode url ≢ ""
    pub line : one_line (encode url) ≡ true
    pub decoded : decode (encode url) ≡ some url

  abbrev pub sent : HttpRequest
  sent = call_tool account encode method url nonce now_ms body added

  -- The request as the proxy reads it.
  abbrev pub signed : SignedRequest
  signed = record {
    agent_address = account.address;
    signature = account.sign_message payload;
    nonce = nonce;
    timestamp = nat (now_ms / 1000);
    method = method_text method;
    target_url = url;
  }

  pub sent-signed : build_signed_request sent url ≡ signed
  unfolding build_signed_request call_tool sign_request get
  sent-signed = rw (parse_int-show (now_ms / 1000)) refl

  pub sent_headers : IsClient → is_raw_signature_headers (as_values sent.headers) ≡ true
  unfolding is_raw_signature_headers call_tool sign_request get
  sent_headers h =
      rw
        (
          js_length-filled account.address (address_filled account.address h.address),
          js_length-filled (account.sign_message payload) h.signature,
          js_length-filled nonce h.nonce_filled,
          js_length-filled (show (now_ms / 1000)) (show_filled (now_ms / 1000)),
        )
        refl

  pub sent-IsAdmissible :
      IsClient
      → (verify_ms : ℕ) (v : NonceValidator) → stored account.address nonce v ≡ none
      → IsFresh (seconds verify_ms) (nat (now_ms / 1000))
      → IsAdmissible recover verify_ms (build_signed_request sent url) account.address v
  sent-IsAdmissible h verify_ms v unused fresh = rw (sent-signed) (record {
    recovered = h.recovered;
    address = h.address;
    claimed = refl;
    unused = unused;
    fresh = fresh;
  })
