-- ===== src/Rbac/Contract.antt =====
-- src/rbac/contract.ts: `RBACContractReader`, whose two methods are stubs that call no contract.
use zuul_proxy.Prelude.{String, Bool, true, ◌≡◌, ◌≢◌, ◌==◌, not}
use zuul_proxy.Prelude.Dict.{get}
use zuul_proxy.Prelude.Text.{concat, repeat}
use zuul_proxy.Types.{PermissionAction, Result, ok}
use zuul_proxy.Errors.{ZuulError}
use zuul_proxy.Contracts.Rbac.{RbacContract, zero_role, or_zero}
use zuul_proxy.Contracts.Rbac

-- `hasPermission`
unfoldable pub has_permission : String → String → PermissionAction → Result ZuulError Bool
has_permission agent tool action = ok true

-- `getAgentRole`, the role id and the flag
unfoldable pub get_agent_role : String → Result ZuulError (String × Bool)
get_agent_role agent = ok (concat "0x" (repeat 64 "0"), true)

-- What the stub answers is no answer of the contract: in no state does the contract give an agent
-- the zero role and call it active.
pub get_agent_role-stub :
    (agent who : String) (c : RbacContract) → get_agent_role agent ≢ ok (Rbac.get_agent_role who c)
unfolding get_agent_role Rbac.get_agent_role
get_agent_role-stub agent who c same =
    let role = or_zero (get who c.agent_roles) in
    let (id, flag) : (zero_role ≡ role) × (true ≡ not (role == zero_role)) =
      (cc (same), cc (same)) in
    absurd (cc (rw (← id) at flag))
