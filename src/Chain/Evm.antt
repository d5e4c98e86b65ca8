-- ===== src/Chain/Evm.antt =====
-- src/chain/evm.ts: the driver for Base, Arbitrum and Optimism. `read` is viem's `readContract` of
-- `getAgentRole`, `keccak` its `keccak256` on a hexadecimal text, and `utf8_hex` the hexadecimal
-- text of a string's bytes; `fraction` is `Math.random().toString(16).slice(2)`.
use zuul_proxy.Prelude.{ℕ, ◌-◌, String, Bool, List, Option, none, some}
use zuul_proxy.Prelude.Text.{concat, js_length, repeat}
use zuul_proxy.Types.{Role, Result, ok}
use zuul_proxy.Errors.{ZuulError}
use zuul_proxy.Config.{RoleConfig}
use zuul_proxy.Chain.Roles.{configured_roles, read_role}

pub record EvmChainDriver : Type 0 where
  pub chain_id : ℕ
  pub rpc_url : String
  pub chain_name : String
  pub roles : List Role
  pub rbac_contract_address : String

-- `process.env.RBAC_CONTRACT_ADDRESS || ''`
abbrev pub or_empty : Option String → String
or_empty none = ""
or_empty (some s) = s

unfoldable pub new_evm_chain_driver :
    String → String → ℕ → Option (List RoleConfig) → Option String → EvmChainDriver
unfolding configured_roles
new_evm_chain_driver chain_name rpc_url chain_id roles rbac_address = record {
  chain_id = chain_id;
  rpc_url = rpc_url;
  chain_name = chain_name;
  roles = configured_roles roles;
  rbac_contract_address = or_empty rbac_address;
}

-- What `callContract` gives: the empty object, whatever is called.
pub data Simulated : Type 0 where
  empty_object : Simulated

unfoldable pub call_contract : EvmChainDriver → String → String → Result ZuulError Simulated
call_contract d contract_address function_name = ok empty_object

-- `s.padStart(n, '0')`
abbrev pub pad_start : ℕ → String → String
pad_start n s = concat (repeat (n - js_length s) "0") s

-- `writeContract`: a made-up transaction hash, whatever is called.
unfoldable pub write_contract : EvmChainDriver → String → String → String → Result ZuulError String
write_contract d fraction contract_address function_name = ok (concat "0x" (pad_start 64 fraction))

module _ (keccak : String → String) (utf8_hex : String → String) where
  -- `keccak256` of the role id's bytes, which throws nothing.
  unfoldable pub role_hash : String → Result String String
  role_hash id = ok (keccak (concat "0x" (utf8_hex id)))

  unfoldable pub get_role_for_agent :
      (String → String → Result String (String × Bool))
      → EvmChainDriver
      → String
      → Result String Role
  unfolding read_role role_hash
  get_role_for_agent read d agent = read_role role_hash read d.rbac_contract_address d.roles agent
