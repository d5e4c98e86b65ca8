-- ===== src/Contracts/Rbac/History.antt =====
-- Which role an agent has after any transactions (contracts/RBAC.sol).
use zuul_proxy.Prelude.{
  String, ◌≡◌, refl, false, not, ◌&&◌, List, [], ◌∷◌, Option, none, some, ◌==◌, if◌then◌else◌,
  arith, Bool-cases, inl, inr, eq_refl,
}
use zuul_proxy.Prelude.Dict.{get, get-set, get-delete}
use zuul_proxy.Contracts.Rbac.{
  RbacContract, new_rbac_contract, set_agent_role, emergency_revoke, get_agent_role, or_zero,
  zero_role,
}

-- A transaction: its sender, its agent and the role, where it sets one.
pub data Transaction : Type 0 where
  set_role : String → String → String → Transaction
  revoke : String → String → Transaction

unfoldable pub attempt : Transaction → RbacContract → Option RbacContract
unfolding set_agent_role emergency_revoke
attempt (set_role sender agent role_id) c = set_agent_role sender agent role_id c
attempt (revoke sender agent) c = emergency_revoke sender agent c

-- The contract after a call: one that reverts changes nothing.
abbrev pub or_same : RbacContract → Option RbacContract → RbacContract
or_same c none = c
or_same c (some d) = d

unfoldable pub run : List Transaction → RbacContract → RbacContract
run [] c = c
run (t ∷ ts) c = run ts (or_same c (attempt t c))

-- What one transaction makes of the role of an agent.
abbrev role_step : String → String → String → Transaction → String
role_step proxy agent role_id (set_role sender a r) =
    if sender == proxy && a == agent then r else role_id
role_step proxy agent role_id (revoke sender a) =
    if sender == proxy && a == agent then zero_role else role_id

-- The role of the last transaction about the agent that the proxy sent.
abbrev pub last_role : String → String → String → List Transaction → String
last_role proxy agent role_id [] = role_id
last_role proxy agent role_id (t ∷ ts) = last_role proxy agent (role_step proxy agent role_id t) ts

abbrev pub role_of : String → RbacContract → String
role_of agent c = or_zero (get agent c.agent_roles)

pub attempt-role_step :
    (t : Transaction) (agent : String) (c : RbacContract)
    → role_of agent (or_same c (attempt t c)) ≡ role_step c.proxy agent (role_of agent c) t
unfolding attempt set_agent_role emergency_revoke
attempt-role_step (set_role sender a r) agent c = ground (arith, get-set a agent r c.agent_roles)
attempt-role_step (revoke sender a) agent c = ground (arith, get-delete a agent c.agent_roles)

attempt-proxy : (t : Transaction) (c : RbacContract) → (or_same c (attempt t c)).proxy ≡ c.proxy
unfolding attempt set_agent_role emergency_revoke
attempt-proxy (set_role sender a r) c = ground arith
attempt-proxy (revoke sender a) c = ground arith

run-last_role :
    (ts : List Transaction) (agent : String) (c : RbacContract)
    → role_of agent (run ts c) ≡ last_role c.proxy agent (role_of agent c) ts
unfolding run
run-last_role [] agent c = refl
run-last_role (t ∷ ts) agent c =
    let rest = run-last_role ts agent (or_same c (attempt t c)) in
    rw (attempt-proxy t c, attempt-role_step t agent c) at rest

-- After any transactions, with any senders, the contract that `proxy` deployed answers for an agent
-- with the role of the last transaction about the agent that `proxy` sent, the zero role where that
-- was a revocation or where there was none; the agent is active unless this is the zero role.
pub get_agent_role-run :
    (proxy agent : String) (ts : List Transaction)
    → get_agent_role agent (run ts (new_rbac_contract proxy))
      ≡ (last_role proxy agent zero_role ts, not (last_role proxy agent zero_role ts == zero_role))
unfolding get_agent_role new_rbac_contract get
get_agent_role-run proxy agent ts = rw (run-last_role ts agent (new_rbac_contract proxy)) refl

pub emergency_revoke-gone :
    (sender agent : String) (c d : RbacContract)
    → emergency_revoke sender agent c ≡ some d
    → role_of agent d ≡ zero_role
unfolding emergency_revoke attempt
emergency_revoke-gone sender agent c d e = elim (Bool-cases (sender == c.proxy)) [
  | inr other ↦ absurd (cc (rw (other, emergency_revoke) at e))
  | inl same ↦
      let step = attempt-role_step (revoke sender agent) agent c in
      rw (attempt, e, same, eq_refl agent) at step
]

-- The agent of a revocation that does not revert is not active after it.
pub get_agent_role-revoked :
    (sender agent : String) (c d : RbacContract)
    → emergency_revoke sender agent c ≡ some d
    → get_agent_role agent d ≡ (zero_role, false)
unfolding get_agent_role
get_agent_role-revoked sender agent c d e =
    rw (get_agent_role, emergency_revoke-gone sender agent c d e) refl
