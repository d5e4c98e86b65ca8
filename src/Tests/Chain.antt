-- ===== src/Tests/Chain.antt =====
-- The chain drivers at concrete registrations.
use zuul_proxy.Prelude.{String, ◌≡◌, ◌↔◌, ◌⊎◌, refl, Bool, true, some, none, [], ◌∷◌}
use zuul_proxy.Prelude.Dict.{get, set}
use zuul_proxy.Prelude.Text.{codes_eq, lower}
use zuul_proxy.Types.{Result, ok, err, read}
use zuul_proxy.Rbac.Cache.{convert_to_role_with_permissions, add_permissions, add_all, includes}
use zuul_proxy.Chain.Roles.{find_role, read_role}
use zuul_proxy.Chain.Evm.{EvmChainDriver}
use zuul_proxy.Chain.Hedera
use zuul_proxy.Chain.Hedera.{HederaChainDriver}
use zuul_proxy.Chain.Registered.{IsBacked, hedera_grants}
use zuul_proxy.Chain.Searching.{evm_call, perform_audit_search_evm}
use zuul_proxy.Api.Admin.Search.{internal, no_filter, perform_audit_search}
use zuul_proxy.Tests.Data.{agent, reader}
use zuul_proxy.Tests.Codec.{crypto}
use zuul_proxy.Api.Admin.Revoke.Simulated.{
  evm_fallback, IsConfigured, perform_emergency_revoke_simulated_iff,
}
use zuul_proxy.Api.Admin.Revoke.{Viem, perform_emergency_revoke}
use zuul_proxy.Tests.Admin.{environment, viem, held, params}

-- A hash that keeps its text, and a contract where the agent has the role `0x1`.
abbrev pub keccak : String → String
keccak s = s

abbrev registration : String → String → Result String (String × Bool)
registration contract who = ok ("0x0x1", true)

abbrev pub evm : EvmChainDriver
evm = record {
  chain_id = 8453;
  rpc_url = "https://base";
  chain_name = "base";
  roles = reader ∷ [];
  rbac_contract_address = "0xrbac";
}

abbrev pub hedera : HederaChainDriver
hedera = record {
  chain_id = 295;
  rpc_url = "https://hedera";
  has_wallet = true;
  roles = reader ∷ [];
  rbac_contract_address = "0xrbac";
}

abbrev pub to_hex_32 : String → Result String String
to_hex_32 s = ok "0x0x1"

hedera_grants_example :
    IsBacked
      (Hedera.role_hash keccak to_hex_32)
      registration
      "0xrbac"
      (reader ∷ [])
      agent
      reader
      "github"
      read
unfolding Hedera.get_role_for_agent read_role find_role codes_eq lower Hedera.role_hash
    convert_to_role_with_permissions add_permissions add_all includes get set
hedera_grants_example =
    hedera_grants keccak registration agent reader "github" read to_hex_32 hedera refl refl

perform_audit_search_evm_example :
    (perform_audit_search crypto [] (evm_call evm "0xaudit") params ≡ err no_filter)
    ⊎ (perform_audit_search crypto [] (evm_call evm "0xaudit") params ≡ err internal)
perform_audit_search_evm_example = perform_audit_search_evm crypto [] evm "0xaudit" params

-- A node that takes no transaction.
abbrev unreachable : Viem
unreachable = record viem { write_contract = λ account to who. none }

perform_emergency_revoke_simulated_iff_example :
    ((tx : String) × ((perform_emergency_revoke environment unreachable
          (evm_fallback evm "ab")
          agent
          (some held)).0
        ≡ ok tx))
    ↔ IsConfigured environment unreachable agent
perform_emergency_revoke_simulated_iff_example =
    perform_emergency_revoke_simulated_iff environment unreachable evm "ab" agent (some held)
