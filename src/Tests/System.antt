-- ===== src/Tests/System.antt =====
-- The whole server at a concrete run: one agent is revoked, and another one goes on.
use zuul_proxy.Prelude.{
  ◌≡◌, ◌≢◌, refl, ap, inl, inr, some, [], ◌∷◌, List, ℕ, String, Option, Bool-cases, ◌==◌,
  if◌then◌else◌,
}
use zuul_proxy.Prelude.Dict.{get, delete}
use zuul_proxy.Prelude.Text.{codes_eq, lower, is_hex, matches}
use zuul_proxy.Chain.Roles.{find_role, read_role}
use zuul_proxy.Chain.Hedera.{get_role_for_agent, role_hash}
use zuul_proxy.Rbac.Cache.{invalidate}
use zuul_proxy.Auth.Acceptance.{verify_signed_request_iff}
use zuul_proxy.Api.Context.{Context, new_context}
use zuul_proxy.Api.Signature.{build_signed_request}
use zuul_proxy.Api.Pipeline.Stages.{signature_proceed}
use zuul_proxy.Api.Pipeline.Authorisation.{IsAuthorised}
use zuul_proxy.Api.Admin.Revoke.{
  Viem, is_address, signer_key, with_account, submit, direct, perform_emergency_revoke,
}
use zuul_proxy.Audit.Contract.{Written, thrown}
use zuul_proxy.Contracts.Rbac.{RbacContract, emergency_revoke, get_agent_role}
use zuul_proxy.System.{
  System, Setting, read_contract, chain_role, ReadsFor, Later, here, next, background,
}
use zuul_proxy.System.Revoked.Final.{Revocation, after, revoked_calls_nothing}
use zuul_proxy.Tests.Data.{
  server, platform, run_with, reader, users, shared, call, agent, nonces, queue, cache, recover,
}
use zuul_proxy.Tests.Chain.{keccak, to_hex_32, hedera}
use zuul_proxy.Tests.Admin.{environment, spelled}
use zuul_proxy.Tests.Pipeline.{handle_call}

-- Another agent, which is revoked.
abbrev outcast : String
outcast = "0x1111111111111111111111111111111111111111"

-- The texts of one address have one form.
abbrev encode : String → Option String
encode s = if s == spelled then some agent else some s

abbrev viem : Viem
viem = record {
  private_key_to_account = λ key. some "0xproxy";
  get_address = encode;
  write_contract = λ account contract address. some "0xtx";
}

abbrev fallback : String → String → Written
fallback contract address = thrown "unreachable"

abbrev setting : Setting
setting = record {
  server = server;
  platform = platform;
  driver = hedera;
  keccak = keccak;
  to_hex_32 = to_hex_32;
  encode = encode;
  deployed = hedera.rbac_contract_address;
}

-- A contract with the role of the agent, and one of an agent to be revoked.
abbrev contract : RbacContract
contract = record { proxy = "0xproxy"; agent_roles = (agent, "0x0x1") ∷ (outcast, "0x0x1") ∷ [] }

abbrev remaining : RbacContract
remaining = record { proxy = "0xproxy"; agent_roles = (agent, "0x0x1") ∷ [] }

abbrev system : System
system = record { shared = shared; contract = remaining; lookups = [] }

revocation : Revocation setting system environment viem fallback outcast "0xtx" cache
unfolding perform_emergency_revoke is_address matches is_hex signer_key with_account submit direct
    invalidate delete
revocation = refl

abbrev revoked_state : System
revoked_state = after setting system environment viem fallback outcast "0xtx" cache

later : Later setting outcast revoked_state revoked_state
later = next here (background nonces queue) tt

accepted : emergency_revoke "0xproxy" outcast contract ≡ some remaining
unfolding emergency_revoke delete
accepted = refl

-- What is recovered is in the form that the addresses have.
checksums :
    (payload : List ℕ) (signature signer : String)
    → recover payload signature ≡ some signer
    → encode signer ≡ some signer
checksums payload signature signer e = elim (Bool-cases (signature == "0xgood")) [
  | inl good ↦ let same : agent ≡ signer = cc (rw (good, recover) at e) in rw (← same) refl
  | inr bad ↦ absurd (cc (rw (bad, recover) at e))
]

-- The run of the tests reads what the contract has.
reads : ReadsFor setting (run_with reader) users revoked_state
unfolding chain_role get_role_for_agent read_role read_contract get_agent_role find_role role_hash
    codes_eq lower get build_signed_request
reads c x e named n =
    let v =
      signature_proceed platform.recover platform.decode 1000000 1000 users (new_context "r1") c
        nonces e in
    let admitted =
      (verify_signed_request_iff platform.recover 1000000 (build_signed_request users v.target)
          nonces v.agent).0
        v.verified in
    let recovered : some agent ≡ some v.agent = admitted.recovered in
    let kept : some v.agent ≡ c.recovered_address =
      ap (λ (d : Context). d.recovered_address) v.context in
    let signer : agent ≡ x = cc (recovered, kept, named) in rw (← signer) (inl refl)

revoked_calls_nothing_example :
    (h : IsAuthorised server platform (run_with reader) users revoked_state.shared call) × (encode
        h.agent
      ≢ some outcast)
revoked_calls_nothing_example =
    revoked_calls_nothing setting system environment viem fallback outcast "0xtx" cache "0xproxy"
      contract revoked_state (run_with reader) users call refl checksums revocation accepted tt
      later reads handle_call
