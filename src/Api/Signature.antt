-- ===== src/Api/Signature.antt =====
-- src/api/middleware/signature.ts. `recover` is viem's `recoverMessageAddress`, and `decode` is
-- `decodeURIComponent`; `none` is a throw of theirs. `reply_s` is the clock of a reply, in seconds.
use Prim.Native.Char.{code}
use zuul_proxy.Prelude.{
  ℕ, String, Bool, true, ◌||◌, not, [], ◌∷◌, Option, none, some, map, eqb, ◌&&◌, ◌==◌,
  if◌then◌else◌,
}
use zuul_proxy.Prelude.Dict.{Dict, get}
use zuul_proxy.Prelude.Text.{between, strip}
use zuul_proxy.Prelude.ParseInt.{parse_int}
use zuul_proxy.Types.{SignedRequest, Result, ok, err, Value, text, other}
use zuul_proxy.Errors.{ZuulError, Info, minus}
use zuul_proxy.Auth.Guards.{is_http_method, is_raw_signature_headers}
use zuul_proxy.Auth.Signature.{Payload, NonceValidator, verify_signed_request}
use zuul_proxy.Api.Context.{
  HttpRequest, Context, Outcome, respond, proceed, rpc_error, plain_governance,
}

-- No line terminator, which `.` does not match.
unfoldable pub one_line : String → Bool
one_line String.[] = true
one_line (String.◌∷◌ c s) =
    not (eqb (code c) 10 || (eqb (code c) 13 || between 0x2028 0x2029 (code c))) && one_line s

-- `path.match(/^\/forward\/(.+)$/)`, and its first group.
unfoldable pub forward_path : String → Option String
unfolding one_line
forward_path path = elim (strip "/forward/" path) [
  | none ↦ none
  | some rest ↦ if rest == "" then none else if one_line rest then some rest else none
]

abbrev pub as_values : Dict String → Dict Value
as_values headers = map (λ e. (e.0, text e.1)) headers

abbrev header : String → Dict String → String
header name headers = elim (get name headers) [ none ↦ "" | some s ↦ s ]

unfoldable pub build_signed_request : HttpRequest → String → SignedRequest
unfolding parse_int get
build_signed_request req target_url = record {
  agent_address = header "x-agent-address" req.headers;
  signature = header "x-signature" req.headers;
  nonce = header "x-nonce" req.headers;
  timestamp = parse_int (header "x-timestamp" req.headers);
  method = req.method;
  target_url = target_url;
}

abbrev refuse : ℕ → ℕ → Context → Info → ℕ → String → String → Outcome
refuse status code c info reply_s message error_type = respond (record {
  status = status;
  body = rpc_error (minus code) message info (plain_governance c.request_id reply_s error_type);
})

missing_headers : Context → ℕ → Outcome
missing_headers c reply_s =
    refuse 401 32001 c (("required_headers", other) ∷ []) reply_s "Missing signature headers"
      "auth/missing_signature"

malformed : Context → ℕ → String → Outcome
malformed c reply_s message = refuse 400 32600 c [] reply_s message "request/malformed"

-- The answer of the `catch`.
internal : Context → ℕ → Outcome
internal c reply_s = refuse 500 32603 c [] reply_s "Internal server error" "service/internal_error"

unverified : Context → ℕ → SignedRequest → ZuulError → Outcome
unverified c reply_s signed e = respond (record {
  status = 401;
  body =
      rpc_error e.code e.message e.info
        (record (plain_governance c.request_id reply_s "auth/invalid_signature") {
          agent = some signed.agent_address;
        });
})

-- Steps 4 and 5.
unfoldable pub attach :
    Context
    → ℕ
    → SignedRequest
    → Result ZuulError String × NonceValidator
    → Outcome × NonceValidator
unfolding unverified
attach c reply_s signed (err e, v) = (unverified c reply_s signed e, v)
attach c reply_s signed (ok address, v) =
    (proceed (record c { recovered_address = some address; signed_request = some signed }), v)

module _ (recover : Payload → String → Option String) (decode : String → Option String) where
  unfoldable pub signature_middleware :
      ℕ → ℕ → HttpRequest → Context → NonceValidator → Outcome × NonceValidator
  unfolding missing_headers malformed internal
  signature_middleware verify_ms reply_s req c v =
      if not (is_raw_signature_headers (as_values req.headers))
      then (missing_headers c reply_s, v)
      else elim (forward_path req.path) [
        | none ↦ (malformed c reply_s "Invalid request path", v)
        | some encoded ↦ elim (decode encoded) [
          | none ↦ (internal c reply_s, v)
          | some target_url ↦
              if not (is_http_method (text req.method))
              then (malformed c reply_s "Invalid HTTP method", v)
              else let signed = build_signed_request req target_url in
                attach c reply_s signed (verify_signed_request recover verify_ms signed v)
        ]
      ]
