-- ===== src/Scripts/RegisterAgents.antt =====
-- scripts/register-agents.ts: gives the test accounts the roles of config.yaml. `account` is the
-- address of viem's `privateKeyToAccount`, and `hash` is `keccak256(toHex(id, { size: 32 }))`,
-- where an `err` is a throw; a transaction that reverts throws too. `exit(1)` is an `err` with its
-- message.
pub mod Held
pub mod Registered
use zuul_proxy.Prelude.{
  ℕ, suc, String, Bool, true, ◌||◌, List, [], ◌∷◌, Option, none, some, ◌==◌, if◌then◌else◌,
}
use zuul_proxy.Types.{Result, ok, err}
use zuul_proxy.Config.{PermissionConfig, RoleConfig}
use zuul_proxy.Contracts.Rbac.{RbacContract, set_agent_role}

-- `HARDHAT_TEST_ACCOUNTS`
abbrev pub hardhat_test_accounts : List String
hardhat_test_accounts =
    "0xac0974bec39a17e36ba4a6b4d238ff944bacb478cbed5efcae784d7bf4f2ff80"
    ∷ "0x7797c0f3db8b946604ec2039dfd9763e4ffdc53174342a2ed9b14fa3eda666a5"
    ∷ "0x8b3a350cf5c34c9194ca85829a2df0ec3153be0318b5e2d3348e8175e8ff081c"
    ∷ "0x92db14e403d91d5ebff5b111b6b2d4184573ce32b41f89a8ae7dff2b5189ec3d"
    ∷ "0x4bbbf85ce3377467afe5d46723e98038ddc3d2fd0f3f7ef7d6acbce87f8b1d09"
    ∷ "0xdbda1821b80551c9d65939329250298aa3472ba22feea921c8aaf07d92b8a761" ∷ []

-- What is written to .agents.json for an agent; its key there is the index and one.
pub record AgentInfo : Type 0 where
  pub address : String
  pub hardhat_account_index : ℕ
  pub role : String
  pub permissions : List PermissionConfig

-- `!address`
abbrev pub is_missing : Option String → Bool
is_missing none = true
is_missing (some s) = s == ""

abbrev add_info : AgentInfo → Result String (List AgentInfo) → Result String (List AgentInfo)
add_info info (err message) = err message
add_info info (ok infos) = ok (info ∷ infos)

module _ (account : String → String) (hash : String → Result String String) where
  -- The loop, from the account with the index `i` on, with the contract that it leaves.
  unfoldable pub register_from :
      String
      → ℕ
      → List String
      → List RoleConfig
      → RbacContract
      → Result String (List AgentInfo) × RbacContract
  unfolding set_agent_role
  register_from sender i [] roles c = (ok [], c)
  register_from sender i (key ∷ keys) [] c = (ok [], c)
  register_from sender i (key ∷ keys) (role ∷ roles) c = elim (hash role.id) [
    | err message ↦ (err message, c)
    | ok role_id ↦ elim (set_agent_role sender (account key) role_id c) [
      | none ↦ (err "execution reverted", c)
      | some d ↦
          let rest = register_from sender (suc i) keys roles d in
          let info : AgentInfo = record {
            address = account key;
            hardhat_account_index = i;
            role = role.name;
            permissions = role.permissions;
          } in
          (add_info info rest.0, rest.1)
    ]
  ]

  -- From the roles of the configuration on; without roles it throws.
  abbrev with_roles :
      Option (List RoleConfig) → RbacContract → Result String (List AgentInfo) × RbacContract
  with_roles none c = (err "No roles defined in config.yaml", c)
  with_roles (some []) c = (err "No roles defined in config.yaml", c)
  with_roles (some (role ∷ roles)) c =
      register_from (account "0xac0974bec39a17e36ba4a6b4d238ff944bacb478cbed5efcae784d7bf4f2ff80") 0
        hardhat_test_accounts (role ∷ roles) c

  -- `main`, with the two addresses of the environment and the roles of config.yaml.
  unfoldable pub main :
      Option String
      → Option String
      → Option (List RoleConfig)
      → RbacContract
      → Result String (List AgentInfo) × RbacContract
  unfolding register_from
  main rbac_address audit_address roles c =
      if is_missing rbac_address || is_missing audit_address
      then (err "Missing contract addresses", c)
      else with_roles roles c
