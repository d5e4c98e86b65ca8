-- ===== src/Chain/Hedera.antt =====
-- src/chain/hedera.ts: the driver for Hedera, and for a local Hardhat node. viem's `readContract`
-- of `getAgentRole` is `read`, `keccak256` is `keccak`, and `toHex` with size 32 is `to_hex_32`,
-- which throws on a longer text; of a read of a contract, `encoded`, `sent` and `decode` are its
-- three steps.
use zuul_proxy.Prelude.{
  ℕ, String, Bool, true, false, List, [], ◌∷◌, Option, none, some, ◌==◌, eqb, not, if◌then◌else◌,
}
use zuul_proxy.Types.{Role, Result, ok, err, text}
use zuul_proxy.Errors.{ZuulError, new_service_error, minus}
use zuul_proxy.Config.{RoleConfig}
use zuul_proxy.Chain.Roles.{configured_roles, read_role}
use zuul_proxy.Chain.Evm.{or_empty}

-- `has_wallet` says whether `walletClient` is set.
pub record HederaChainDriver : Type 0 where
  pub chain_id : ℕ
  pub rpc_url : String
  pub has_wallet : Bool
  pub roles : List Role
  pub rbac_contract_address : String

-- `!!s`
abbrev pub is_set : Option String → Bool
is_set none = false
is_set (some s) = not (s == "")

-- The variables of the environment that the constructor reads.
pub record HederaEnvironment : Type 0 where
  pub hardhat_signer_key : Option String
  pub proxy_signer_key : Option String
  pub hedera_rpc_url : Option String
  pub rbac_contract_address : Option String

abbrev default_url : Option String → String
default_url none = "https://testnet.hashio.io/api"
default_url (some s) = if s == "" then "https://testnet.hashio.io/api" else s

-- The constructor, without a client for tests.
unfoldable pub new_hedera_chain_driver :
    HederaEnvironment → Option String → Option (List RoleConfig) → HederaChainDriver
unfolding configured_roles
new_hedera_chain_driver env rpc_url roles = record {
  chain_id = if is_set env.hardhat_signer_key then 31337 else 295;
  rpc_url = if is_set rpc_url then default_url rpc_url else default_url env.hedera_rpc_url;
  has_wallet = if is_set env.proxy_signer_key then true else is_set env.hardhat_signer_key;
  roles = configured_roles roles;
  rbac_contract_address = or_empty env.rbac_contract_address;
}

-- What a read gives: an empty array, or the decoded value.
pub data Decoded (D : Type 0) : Type 0 where
  empty_array : Decoded D
  decoded : D → Decoded D

pub call_failed : ZuulError
unfolding new_service_error
call_failed =
    new_service_error "Hedera contract call failed" (minus 32022) 503 "service/unavailable"
      (("reason", text "Hedera RPC call failed") ∷ [])

module _ {D : Type 0} (encoded : Option String) (sent : String → Option (Option String))
    (decode : String → Option D) where
  abbrev decoded_or_empty : Option D → Decoded D
  decoded_or_empty none = empty_array
  decoded_or_empty (some v) = decoded v

  abbrev after_send : Option (Option String) → Result ZuulError (Decoded D)
  after_send none = err call_failed
  after_send (some none) = ok empty_array
  after_send (some (some data_hex)) = ok (decoded_or_empty (decode data_hex))

  unfoldable pub call_contract : ℕ → Result ZuulError (Decoded D)
  unfolding call_failed
  call_contract abi_length =
      if eqb abi_length 0
      then ok empty_array
      else elim encoded [ none ↦ err call_failed | some request ↦ after_send (sent request) ]

no_signer : ZuulError
unfolding new_service_error
no_signer =
    new_service_error "Transaction submission disabled: no signer configured" (minus 32603) 500
      "service/internal_error"
      (("reason", text "PROXY_SIGNER_KEY or HARDHAT_SIGNER_KEY not set") ∷ [])

write_failed : String → ZuulError
unfolding new_service_error
write_failed message =
    new_service_error "Hedera contract write failed" (minus 32021) 504 "service/timeout"
      (("reason", text message) ∷ [])

-- `submitted` is what the wallet's `writeContract` gives, an `err` its throw.
unfoldable pub write_contract : HederaChainDriver → Result String String → Result ZuulError String
unfolding no_signer write_failed
write_contract d submitted =
    if d.has_wallet
    then (elim submitted [ err message ↦ err (write_failed message) | ok tx ↦ ok tx ])
    else err no_signer

module _ (keccak : String → String) (to_hex_32 : String → Result String String) where
  unfoldable pub role_hash : String → Result String String
  role_hash id = elim (to_hex_32 id) [ err message ↦ err message | ok hex ↦ ok (keccak hex) ]

  unfoldable pub get_role_for_agent :
      (String → String → Result String (String × Bool))
      → HederaChainDriver
      → String
      → Result String Role
  unfolding read_role role_hash
  get_role_for_agent read d agent = read_role role_hash read d.rbac_contract_address d.roles agent
