-- ===== src/Tests/Auth.antt =====
-- Signatures, nonces and timestamps at concrete requests.
use zuul_proxy.Prelude.{◌+◌, ◌≡◌, ◌≢◌, ◌↔◌, refl, arith, false, [], ◌∷◌}
use zuul_proxy.Prelude.Dict.{get, set}
use zuul_proxy.Prelude.Number.{nan, nat, ◌-ℤ◌}
use zuul_proxy.Prelude.Text.{concat, codes_eq, lower, decimal, is_hex, js_length, matches}
use zuul_proxy.Types.{SignedRequest, ok}
use zuul_proxy.Auth.Guards.{is_agent_address}
use zuul_proxy.Errors.{create_auth_error, errors, new_auth_error}
use zuul_proxy.Auth.Signature.{
  NonceValidator, verify_signed_request, verify_recovered, recover_signer, check_replay,
  validate_and_store, validate, build_canonical_payload, number_text, cleanup, drop_agents,
  drop_expired, is_expired,
}
use zuul_proxy.Auth.Signature.Validators.{is_err, IsFresh, validate_iff}
use zuul_proxy.Auth.Acceptance.{IsAdmissible, verify_signed_request_iff}
use zuul_proxy.Auth.Payload.{build_canonical_payload_injective}
use zuul_proxy.Auth.Replay.{here, next, sweep, verify_no_replay}
use zuul_proxy.Tests.Data.{agent, recover, nonces}

abbrev signed : SignedRequest
signed = record {
  agent_address = "0x00112233445566778899AABBCCDDEEFF00112233";
  signature = "0xgood";
  nonce = "n1";
  timestamp = nat 1000;
  method = "GET";
  target_url = "https://api.github.com/users";
}

-- The nonce stored for the agent.
abbrev used : NonceValidator
used = record nonces { nonce_store = (agent, ("n1", nat 1000) ∷ []) ∷ [] }

accepted : verify_signed_request recover 1000000 signed nonces ≡ (ok agent, used)
unfolding verify_signed_request verify_recovered recover_signer is_agent_address codes_eq lower
    check_replay validate_and_store validate ◌-ℤ◌ build_canonical_payload number_text get set
    create_auth_error errors new_auth_error decimal is_hex js_length matches
accepted = refl

verify_signed_request_iff_example :
    ((verify_signed_request recover 1000000 signed nonces).0 ≡ ok agent)
    ↔ IsAdmissible recover 1000000 signed agent nonces
verify_signed_request_iff_example = verify_signed_request_iff recover 1000000 signed nonces agent

-- The request again, after ten minutes and a sweep.
verify_no_replay_example :
    (verify_signed_request recover 1600000 signed
      (cleanup 1500000 (verify_signed_request recover 1000000 signed nonces).1)).0
    ≢ ok agent
unfolding verify_signed_request verify_recovered recover_signer is_agent_address codes_eq lower
    check_replay validate_and_store validate ◌-ℤ◌ build_canonical_payload number_text get set
    create_auth_error errors new_auth_error decimal is_hex js_length matches
verify_no_replay_example =
    verify_no_replay recover 1000000 signed nonces agent refl 1500000
      (cleanup 1500000 (verify_signed_request recover 1000000 signed nonces).1)
      (next here (sweep 1000000 1500000 _ (omega arith))) 1600000 signed (omega arith) refl refl

validate_iff_example : (is_err (validate 1000000 nan) ≡ false) ↔ IsFresh 1000 nan
validate_iff_example = validate_iff 1000000 nan

-- The same request as two texts, of which the second is computed.
build_canonical_payload_injective_example :
    ("GET" ≡ concat "G" "ET")
    × ("https://a.io/?\n" ≡ concat "https://a.io/?" "\n")
    × ("n1" ≡ concat "n" "1")
    × (nat 1000 ≡ nat (999 + 1))
unfolding build_canonical_payload number_text decimal
build_canonical_payload_injective_example =
    build_canonical_payload_injective "GET" "https://a.io/?\n" "n1" (nat 1000) (concat "G" "ET")
      (concat "https://a.io/?" "\n") (concat "n" "1") (nat (999 + 1))
      (omega arith, (omega arith, (omega arith, tt)))
      (omega arith, (omega arith, (omega arith, tt))) (omega arith, (omega arith, tt))
      (omega arith, (omega arith, tt)) refl

-- One second later the nonce is dropped, and its agent with it.
cleanup_expired : cleanup 1301000 used ≡ nonces
unfolding cleanup drop_agents drop_expired is_expired ◌-ℤ◌
cleanup_expired = refl
