-- ===== src/Auth/Signature.antt =====
-- src/auth/signature.ts: recovering the signer, the nonce and timestamp validators, and the
-- verification of a signed request. `recover` stands for viem's `recoverMessageAddress`; `none`
-- is a call that throws. Times are `Date.now()`, in milliseconds.
pub mod Validators
use zuul_proxy.Prelude.{
  String, ℕ, ◌+◌, ◌*◌, ◌/◌, Bool, true, false, not, List, [], ◌∷◌, ◌++◌, Option, none, some, length,
  if◌then◌else◌,
}
use zuul_proxy.Prelude.Dict.{Dict, get, has, set, size}
use zuul_proxy.Prelude.Number.{Number, nan, int, ℤ, pos, negsuc, nat, sub, abs, gt}
use zuul_proxy.Prelude.Text.{concat, codes, decimal, to_lower_case, codes_eq}
use zuul_proxy.Types.{HttpMethod, SignedRequest, Result, ok, err, text, number}
use zuul_proxy.Errors.{
  ZuulError, plain, ErrorKey, invalid_signature, invalid_nonce, timestamp_drift, Info,
  create_auth_error, minus,
}
use zuul_proxy.Auth.Guards.{is_agent_address, method_text}

-- A code point list is the text that is signed.
abbrev pub Payload : Type 0
Payload = List ℕ

-- `${n}`
unfoldable pub number_text : Number → Payload
unfolding decimal
number_text nan = codes "NaN"
number_text (int (pos n)) = decimal n
number_text (int (negsuc n)) = b'-' ∷ decimal (n + 1)

unfoldable pub build_canonical_payload : String → String → String → Number → Payload
unfolding number_text
build_canonical_payload method target_url nonce timestamp =
    codes method
    ++ (b'\n' ∷ (codes target_url ++ (b'\n' ∷ (codes nonce ++ (b'\n' ∷ number_text timestamp)))))

-- The error that `createAuthError(key, data)` returns. For a key of another class it throws; the
-- plain error stands for that, and no call in this file makes it.
abbrev auth_failure : ErrorKey → Info → ZuulError
auth_failure key info = elim (create_auth_error key info) [
  | ok e ↦ e
  | err message ↦ record {
    class = plain;
    message = message;
    code = minus 32603;
    http_status = 500;
    error_type = "";
    info = [];
  }
]

-- `0x${createHash('sha256')…}` of the payload, over the hash function's hexadecimal digest.
unfoldable pub hash_payload : (List ℕ → String) → Payload → String
hash_payload sha256_hex payload = concat "0x" (sha256_hex payload)

module _ (recover : Payload → String → Option String) where
  unfoldable pub recover_signer : Payload → String → Result ZuulError String
  recover_signer payload signature = elim (recover payload signature) [
    | none ↦
        err (auth_failure invalid_signature (("reason", text "Signature recovery failed") ∷ []))
    | some address ↦
        if is_agent_address (text address)
        then ok address
        else err (auth_failure invalid_signature (("recovered_signer", text address) ∷ []))
  ]

-- `NonceValidator`: the nonces of each agent with their timestamps, and whether the cleanup timer
-- runs.
pub record NonceValidator : Type 0 where
  pub nonce_store : Dict (Dict Number)
  pub cleanup_running : Bool

unfoldable pub new_nonce_validator : NonceValidator
new_nonce_validator = record { nonce_store = []; cleanup_running = true }

-- `map.get(agent) || new Map()`
abbrev pub or_empty : Option (Dict Number) → Dict Number
or_empty none = []
or_empty (some m) = m

unfoldable pub validate_and_store :
    String → String → Number → NonceValidator → Result ZuulError (Unit {0}) × NonceValidator
unfolding create_auth_error get set
validate_and_store agent nonce timestamp v =
    let agent_nonces = or_empty (get agent v.nonce_store) in
    if has nonce agent_nonces
    then (err (auth_failure invalid_nonce (("nonce", text nonce) ∷ ("agent", text agent) ∷ [])), v)
    else (
      ok tt,
      record v { nonce_store = set agent (set nonce timestamp agent_nonces) v.nonce_store },
    )

-- 5 minutes, in seconds
abbrev pub window_seconds : ℕ
window_seconds = 5 * 60

-- `Math.floor(Date.now() / 1000)`
abbrev pub seconds : ℕ → ℕ
seconds now_ms = now_ms / 1000

-- `now - timestamp > expiry`
unfoldable pub is_expired : ℕ → Number → Bool
is_expired now timestamp = gt (sub (nat now) timestamp) (nat window_seconds)

-- The inner loop of `cleanup`.
unfoldable pub drop_expired : ℕ → Dict Number → Dict Number
unfolding is_expired
drop_expired now [] = []
drop_expired now ((nonce, timestamp) ∷ m) =
    if is_expired now timestamp then drop_expired now m else (nonce, timestamp) ∷ drop_expired now m

-- The outer loop: an agent whose last nonce went is deleted.
unfoldable pub drop_agents : ℕ → Dict (Dict Number) → Dict (Dict Number)
unfolding drop_expired
drop_agents now [] = []
drop_agents now ((agent, nonces) ∷ m) = elim (drop_expired now nonces) [
  | [] ↦ drop_agents now m
  | e ∷ kept ↦ (agent, e ∷ kept) ∷ drop_agents now m
]

unfoldable pub cleanup : ℕ → NonceValidator → NonceValidator
unfolding drop_agents
cleanup now_ms v = record v { nonce_store = drop_agents (seconds now_ms) v.nonce_store }

total_nonces : Dict (Dict Number) → ℕ
total_nonces [] = 0
total_nonces ((agent, nonces) ∷ m) = size nonces + total_nonces m

unfoldable pub get_metrics : NonceValidator → ℕ × ℕ
unfolding total_nonces
get_metrics v = (size v.nonce_store, total_nonces v.nonce_store)

unfoldable pub destroy : NonceValidator → NonceValidator
destroy v = record v { nonce_store = []; cleanup_running = false }

-- `TimestampValidator.validate`: `Math.abs(now - timestamp) > windowSeconds`
unfoldable pub validate : ℕ → Number → Result ZuulError (Unit {0})
unfolding create_auth_error
validate now_ms timestamp =
    let now = nat (seconds now_ms) in
    if gt (abs (sub now timestamp)) (nat window_seconds)
    then err (
        auth_failure timestamp_drift (
          ("timestamp", number timestamp)
          ∷ ("now", number now)
          ∷ ("max_drift_seconds", number (nat window_seconds))
          ∷ []))
    else ok tt

-- Steps 3 and 4, after the signer is known.
unfoldable pub check_replay :
    ℕ → SignedRequest → String → NonceValidator → Result ZuulError String × NonceValidator
check_replay now_ms req signer v =
    let (nonce_result, v') = validate_and_store signer req.nonce req.timestamp v in
    elim nonce_result [
      | err e ↦ (err e, v')
      | ok _ ↦ elim (validate now_ms req.timestamp) [ err e ↦ (err e, v') | ok _ ↦ (ok signer, v') ]
    ]

-- From step 2 on: `recovered` is the result of step 1.
unfoldable pub verify_recovered :
    ℕ
    → SignedRequest
    → NonceValidator
    → Result ZuulError String
    → Result ZuulError String × NonceValidator
verify_recovered now_ms req v (err e) = (err e, v)
verify_recovered now_ms req v (ok signer) =
    if not (codes_eq (to_lower_case signer) (to_lower_case req.agent_address))
    then (
      err (
          auth_failure invalid_signature
            (("expected_signer", text req.agent_address) ∷ ("recovered_signer", text signer) ∷ [])),
      v,
    )
    else check_replay now_ms req signer v

module _ (recover : Payload → String → Option String) where
  unfoldable pub verify_signed_request :
      ℕ → SignedRequest → NonceValidator → Result ZuulError String × NonceValidator
  verify_signed_request now_ms req v = verify_recovered now_ms req v (
      recover_signer recover
        (build_canonical_payload req.method req.target_url req.nonce req.timestamp) req.signature)
