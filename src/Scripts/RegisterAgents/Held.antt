-- ===== src/Scripts/RegisterAgents/Held.antt =====
-- What the loop of scripts/register-agents.ts leaves in the role contract (contracts/RBAC.sol).
use zuul_proxy.Prelude.{
  ℕ, suc, String, ◌≡◌, refl, ◌∙◌, ap, false, List, [], ◌∷◌, some, All, ◌==◌, if◌then◌else◌,
  Bool-cases, Option-cases, inl, inr, eq_refl,
}
use zuul_proxy.Types.{Result, ok, err, Result-cases}
use zuul_proxy.Config.{RoleConfig}
use zuul_proxy.Contracts.Rbac.{RbacContract, set_agent_role}
use zuul_proxy.Contracts.Rbac.History.{role_of, set_role, attempt, attempt-role_step}
use zuul_proxy.Scripts.RegisterAgents.{AgentInfo, add_info, register_from}

-- The accounts with their roles, as long as there are both.
abbrev pub assigned : List String → List RoleConfig → List (String × RoleConfig)
assigned [] roles = []
assigned (key ∷ keys) [] = []
assigned (key ∷ keys) (role ∷ roles) = (key, role) ∷ assigned keys roles

module _ (account : String → String) where
  -- The address is none of the accounts.
  abbrev IsOther : String → List String → Type 0
  IsOther a keys = All (λ key. (account key == a) ≡ false) keys

  abbrev pub IsDistinct : List String → Type 0
  IsDistinct [] = Unit
  IsDistinct (key ∷ keys) = IsOther (account key) keys × IsDistinct keys

module _ (account : String → String) (hash : String → Result String String) (sender : String) where
  -- What one round needs to go on.
  record IsRound (i : ℕ) (key : String) (keys : List String) (role : RoleConfig)
      (roles : List RoleConfig) (c after : RbacContract) : Type 0 where
    role_id : String
    next : RbacContract
    rest : List AgentInfo
    hashed : hash role.id ≡ ok role_id
    sent : set_agent_role sender (account key) role_id c ≡ some next
    later : register_from account hash sender (suc i) keys roles next ≡ (ok rest, after)

  add_info_ok :
      (info : AgentInfo) (r : Result String (List AgentInfo)) (infos : List AgentInfo)
      → add_info info r ≡ ok infos
      → (rest : List AgentInfo) × (r ≡ ok rest)
  add_info_ok info (err m) infos e = cc
  add_info_ok info (ok rest) infos e = (rest, refl)

  round :
      (i : ℕ) (key : String) (keys : List String) (role : RoleConfig) (roles : List RoleConfig)
      (c after : RbacContract) (infos : List AgentInfo)
      → register_from account hash sender i (key ∷ keys) (role ∷ roles) c ≡ (ok infos, after)
      → IsRound i key keys role roles c after
  unfolding register_from
  round i key keys role roles c after infos e = elim (Result-cases (hash role.id)) [
    | inr (m, bad) ↦ absurd (cc (rw (bad, register_from) at e))
    | inl (role_id, hashed) ↦ elim (Option-cases (set_agent_role sender (account key) role_id c)) [
      | inl reverted ↦ absurd (cc (rw (hashed, reverted, register_from) at e))
      | inr (d, sent) ↦
          let tail = register_from account hash sender (suc i) keys roles d in
          let info : AgentInfo = record {
            address = account key;
            hardhat_account_index = i;
            role = role.name;
            permissions = role.permissions;
          } in
          let both : (add_info info tail.0, tail.1) ≡ (ok infos, after) =
            rw (hashed, sent, register_from) at e in
          let (rest, done) =
            add_info_ok info tail.0 infos
              (ap (λ (p : Result String (List AgentInfo) × RbacContract). p.0) both) in
          let left = ap (λ (p : Result String (List AgentInfo) × RbacContract). p.1) both in
          record {
            role_id = role_id;
            next = d;
            rest = rest;
            hashed = hashed;
            sent = sent;
            later = rw (← done, ← left) refl;
          }
    ]
  ]

  role_of-set :
      (agent role_id a : String) (c d : RbacContract)
      → set_agent_role sender agent role_id c ≡ some d
      → role_of a d ≡ (if agent == a then role_id else role_of a c)
  unfolding set_agent_role attempt
  role_of-set agent role_id a c d e = elim (Bool-cases (sender == c.proxy)) [
    | inr other ↦ absurd (cc (rw (other, set_agent_role) at e))
    | inl same ↦
        let step = attempt-role_step (set_role sender agent role_id) a c in
        rw (attempt, e, same) at step
  ]

  -- The loop gives no role to an address that is none of its accounts.
  register_from-other :
      (a : String) (i : ℕ) (keys : List String) (roles : List RoleConfig) (c after : RbacContract)
      (infos : List AgentInfo)
      → IsOther account a keys
      → register_from account hash sender i keys roles c ≡ (ok infos, after)
      → role_of a after ≡ role_of a c
  unfolding register_from
  register_from-other a i [] roles c after infos h e = let same : c ≡ after = cc in rw (same) refl
  register_from-other a i (key ∷ keys) [] c after infos h e =
      let same : c ≡ after = cc in rw (same) refl
  register_from-other a i (key ∷ keys) (role ∷ roles) c after infos (not_it, others) e =
      let r = round i key keys role roles c after infos e in
      register_from-other a (suc i) keys roles r.next after r.rest others r.later
      ∙ role_of-set (account key) r.role_id a c r.next r.sent
      ∙ rw (not_it) refl

  -- The role that the contract has for an account is the hash of the role's id.
  abbrev pub IsHeld : RbacContract → String × RoleConfig → Type 0
  IsHeld c (key, role) =
      (role_id : String) × (hash role.id ≡ ok role_id) × (role_of (account key) c ≡ role_id)

  pub register_from-IsHeld :
      (i : ℕ) (keys : List String) (roles : List RoleConfig) (c after : RbacContract)
      (infos : List AgentInfo)
      → IsDistinct account keys
      → register_from account hash sender i keys roles c ≡ (ok infos, after)
      → All (IsHeld after) (assigned keys roles)
  register_from-IsHeld i [] roles c after infos h e = tt
  register_from-IsHeld i (key ∷ keys) [] c after infos h e = tt
  register_from-IsHeld i (key ∷ keys) (role ∷ roles) c after infos (others, h) e =
      let r = round i key keys role roles c after infos e in
      let kept =
        register_from-other (account key) (suc i) keys roles r.next after r.rest others r.later in
      let given = role_of-set (account key) r.role_id (account key) c r.next r.sent in
      (
        (r.role_id, r.hashed, kept ∙ given ∙ rw (eq_refl (account key)) refl),
        register_from-IsHeld (suc i) keys roles r.next after r.rest h r.later,
      )
