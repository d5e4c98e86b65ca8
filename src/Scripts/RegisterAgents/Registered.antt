-- ===== src/Scripts/RegisterAgents/Registered.antt =====
-- The drivers read back the roles that scripts/register-agents.ts sets (src/chain/hedera.ts,
-- contracts/RBAC.sol).
use zuul_proxy.Prelude.{
  String, Bool, ◌≡◌, refl, ◌∙◌, ap, true, false, ◌||◌, List, [], ◌∷◌, ◌++◌, Option, some, All, ◌==◌,
  Bool-cases, inl, inr,
}
use zuul_proxy.Types.{Role, Result, ok}
use zuul_proxy.Config.{RoleConfig}
use zuul_proxy.Chain.Roles.{active_role, find_role, read_role}
use zuul_proxy.Chain.Hedera.{HederaChainDriver, role_hash, get_role_for_agent}
use zuul_proxy.Chain.Registered.{HasHash, IsFirst}
use zuul_proxy.Contracts.Rbac.{RbacContract, get_agent_role, zero_role}
use zuul_proxy.Contracts.Rbac.History.{role_of}
use zuul_proxy.Scripts.RegisterAgents.{
  AgentInfo, is_missing, with_roles, register_from, main, hardhat_test_accounts,
}
use zuul_proxy.Scripts.RegisterAgents.Held.{assigned, IsDistinct, IsHeld, register_from-IsHeld}

All-at :
    {A : Type 0} (P : A → Type 0) (before behind : List A) (x : A)
    → All P (before ++ x ∷ behind)
    → P x
All-at P [] behind x (h, k) = h
All-at P (b ∷ before) behind x (h, k) = All-at P before behind x k

find_role_before :
    (hash : String → Result String String) (h : String) (before after : List Role) (r : Role)
    → All (HasHash hash h false) before
    → HasHash hash h true r
    → find_role hash h (before ++ r ∷ after) ≡ ok (some r)
unfolding find_role
find_role_before hash h [] after r tt (k, hashed, same) = rw (hashed, same) refl
find_role_before hash h (b ∷ before) after r ((k, hashed, other), others) found =
    rw (hashed, other) (find_role_before hash h before after r others found)

read_role_first :
    (hash : String → Result String String) (read : String → String → Result String (String × Bool))
    (contract agent h : String) (roles : List Role) (role : RoleConfig)
    → (contract == "") ≡ false
    → read contract agent ≡ ok (h, true)
    → IsFirst hash h roles (active_role role)
    → read_role hash read contract roles agent ≡ ok (active_role role)
unfolding read_role active_role
read_role_first hash read contract agent h roles role set answer first =
    rw
      (
        set,
        answer,
        first.split,
        find_role_before hash h first.before first.after (active_role role) first.others
            first.found,
        read_role,
      )
      refl

get_agent_role_of :
    (agent h : String) (c : RbacContract)
    → role_of agent c ≡ h
    → (h == zero_role) ≡ false
    → get_agent_role agent c ≡ (h, true)
unfolding get_agent_role
get_agent_role_of agent h c held other = rw (get_agent_role, held, other) refl

module _ (account : String → String) (hash : String → Result String String) where
  -- What the script registered, it has from the loop.
  main-register_from :
      (rbac audit : Option String) (roles : List RoleConfig) (c after : RbacContract)
      (infos : List AgentInfo)
      → main account hash rbac audit (some roles) c ≡ (ok infos, after)
      → register_from account hash
          (account "0xac0974bec39a17e36ba4a6b4d238ff944bacb478cbed5efcae784d7bf4f2ff80")
          0
          hardhat_test_accounts
          roles
          c
        ≡ (ok infos, after)
  unfolding main
  main-register_from rbac audit roles c after infos e =
      elim (Bool-cases (is_missing rbac || is_missing audit)) [
        | inl missing ↦ absurd (cc (rw (missing, main) at e))
        | inr set ↦ some_roles roles (rw (set, main) at e)
      ]
    where
      some_roles :
          (l : List RoleConfig)
          → with_roles account hash (some l) c ≡ (ok infos, after)
          → register_from account hash
              (account "0xac0974bec39a17e36ba4a6b4d238ff944bacb478cbed5efcae784d7bf4f2ff80")
              0
              hardhat_test_accounts
              l
              c
            ≡ (ok infos, after)
      some_roles [] h = cc
      some_roles (role ∷ l) h = h

module _ (account : String → String) (keccak : String → String)
    (to_hex_32 : String → Result String String)
    (read : String → String → Result String (String × Bool)) (d : HederaChainDriver) where
  -- A test account that scripts/register-agents.ts has given a role of the configuration is read by
  -- the driver for Hedera with this role, active and with its permissions: the script succeeded,
  -- the test accounts have different addresses, the driver reads the contract as the script left
  -- it, and the role is the first one of the driver's configuration whose id has its hash, which is
  -- not zero.
  pub get_role_for_agent-registered :
      (rbac audit : Option String) (roles : List RoleConfig) (c after : RbacContract)
      (infos : List AgentInfo) (before behind : List (String × RoleConfig)) (key h : String)
      (role : RoleConfig)
      → main account (role_hash keccak to_hex_32) rbac audit (some roles) c ≡ (ok infos, after)
      → IsDistinct account hardhat_test_accounts
      → assigned hardhat_test_accounts roles ≡ before ++ (key, role) ∷ behind
      → (d.rbac_contract_address == "") ≡ false
      → read d.rbac_contract_address (account key) ≡ ok (get_agent_role (account key) after)
      → role_hash keccak to_hex_32 role.id ≡ ok h
      → (h == zero_role) ≡ false
      → IsFirst (role_hash keccak to_hex_32) h d.roles (active_role role)
      → get_role_for_agent keccak to_hex_32 read d (account key) ≡ ok (active_role role)
  unfolding get_role_for_agent
  get_role_for_agent-registered rbac audit roles c after infos before behind key h role e distinct
        among set reading hashed other first =
      let hash = role_hash keccak to_hex_32 in
      let run = main-register_from account hash rbac audit roles c after infos e in
      let sender = account "0xac0974bec39a17e36ba4a6b4d238ff944bacb478cbed5efcae784d7bf4f2ff80" in
      let held =
        register_from-IsHeld account hash sender 0 hardhat_test_accounts roles c after infos
          distinct run in
      let (role_id, same, its) =
        All-at (IsHeld account hash sender after) before behind (key, role) (rw (among) at held) in
      let stored : role_of (account key) after ≡ h = its ∙ cc (same, hashed) in
      read_role_first hash read d.rbac_contract_address (account key) h d.roles role set
        (reading ∙ ap ok (get_agent_role_of (account key) h after stored other)) first
