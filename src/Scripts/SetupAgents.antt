-- ===== src/Scripts/SetupAgents.antt =====
-- scripts/setup-agents.ts: activates two roles and gives them to test accounts. `account` is the
-- address of viem's `privateKeyToAccount`, and `keccak` its `keccak256` of a hexadecimal text;
-- `utf8_hex` is the hexadecimal text of a string's bytes. A transaction that reverts throws, and
-- `exit(1)` is an `err` with its message.
use zuul_proxy.Prelude.{
  String, Bool, true, ◌≡◌, refl, inl, inr, List, [], ◌∷◌, ◌++◌, Option, none, some, if◌then◌else◌,
  Bool-cases,
}
use zuul_proxy.Prelude.Text.{concat}
use zuul_proxy.Types.{Result, ok, err}
use zuul_proxy.Contracts.Rbac.{RbacContract, set_agent_role, emergency_revoke}
use zuul_proxy.Scripts.RegisterAgents.{is_missing}

-- A call of the role contract by the name of its function.
pub data Call : Type 0 where
  set_agent_role_call : String → String → Call
  set_role_status_call : String → Bool → Call
  emergency_revoke_call : String → Call

-- contracts/RBAC.sol has no `setRoleStatus` and no fallback function, so that a call of it reverts.
unfoldable pub dispatch : String → Call → RbacContract → Option RbacContract
unfolding set_agent_role emergency_revoke
dispatch sender (set_agent_role_call agent role_id) c = set_agent_role sender agent role_id c
dispatch sender (set_role_status_call role_id is_active) c = none
dispatch sender (emergency_revoke_call agent) c = emergency_revoke sender agent c

-- `HARDHAT_TEST_ACCOUNTS` with `ROLES`: the key of an account, and the id of its role.
abbrev pub agents : List (String × String)
agents =
    ("0xac0974bec39a17e36ba4a6b4d238ff944bacb478cbed5efcae784d7bf4f2ff80", "developer")
    ∷ ("0x7797c0f3db8b946604ec2039dfd9763e4ffdc53174342a2ed9b14fa3eda666a5", "administrator")
    ∷ []

-- Transactions, one after another; the first that reverts ends the script.
unfoldable pub send_all :
    String → List Call → RbacContract → Result String RbacContract × RbacContract
unfolding dispatch
send_all sender [] c = (ok c, c)
send_all sender (call ∷ calls) c = elim (dispatch sender call c) [
  | none ↦ (err "execution reverted", c)
  | some d ↦ send_all sender calls d
]

module _ (account : String → String) (keccak : String → String) (utf8_hex : String → String) where
  -- `hashRoleId`
  abbrev pub hash_role_id : String → String
  hash_role_id id = keccak (concat "0x" (utf8_hex id))

  -- The calls of both loops, in their order.
  abbrev activations : List (String × String) → List Call
  activations [] = []
  activations ((key, id) ∷ rest) = set_role_status_call (hash_role_id id) true ∷ activations rest

  abbrev registrations : List (String × String) → List Call
  registrations [] = []
  registrations ((key, id) ∷ rest) =
      set_agent_role_call (account key) (hash_role_id id) ∷ registrations rest

  -- `main`, with the address of the environment.
  unfoldable pub main : Option String → RbacContract → Result String RbacContract × RbacContract
  unfolding send_all
  main rbac_address c =
      if is_missing rbac_address
      then (err "RBAC_CONTRACT_ADDRESS not set in .env", c)
      else send_all (account "0xac0974bec39a17e36ba4a6b4d238ff944bacb478cbed5efcae784d7bf4f2ff80")
          (activations agents ++ registrations agents) c

  -- The script gives no agent a role: on every state of the contract it ends with an error and
  -- leaves the contract as it is, since its first transaction calls a function that the contract
  -- does not have.
  pub main-fails :
      (rbac_address : Option String) (c : RbacContract)
      → (m : String) × (main rbac_address c ≡ (err m, c))
  unfolding main send_all dispatch
  main-fails rbac_address c = elim (Bool-cases (is_missing rbac_address)) [
    | inl missing ↦ ("RBAC_CONTRACT_ADDRESS not set in .env", rw (missing, main) refl)
    | inr set ↦ ("execution reverted", rw (set, main) refl)
  ]
