-- ===== src/Contracts/Rbac.antt =====
-- contracts/RBAC.sol: which role an agent has. An address is the text that viem encodes and decodes
-- it as, and a `bytes32` its hexadecimal text; a mapping is zero where nothing is set. A call that
-- reverts gives `none`.
pub mod History
use zuul_proxy.Prelude.{
  String, Bool, not, Option, none, some, [], ◌==◌, if◌then◌else◌, ◌≡◌, refl, true, eq_refl,
}
use zuul_proxy.Prelude.Dict.{Dict, get, set, delete, get-set, get-delete}
use zuul_proxy.Prelude.Text.{concat, repeat}

-- `bytes32(0)`
abbrev pub zero_role : String
zero_role = concat "0x" (repeat 64 "0")

pub record RbacContract : Type 0 where
  pub proxy : String
  pub agent_roles : Dict String

-- The constructor, called by `sender`.
unfoldable pub new_rbac_contract : String → RbacContract
new_rbac_contract sender = record { proxy = sender; agent_roles = [] }

abbrev pub or_zero : Option String → String
or_zero none = zero_role
or_zero (some role_id) = role_id

-- `onlyProxy`
abbrev pub only_proxy : String → RbacContract → RbacContract → Option RbacContract
only_proxy sender c next = if sender == c.proxy then some next else none

-- `setAgentRole`
unfoldable pub set_agent_role : String → String → String → RbacContract → Option RbacContract
set_agent_role sender agent role_id c =
    only_proxy sender c (record c { agent_roles = set agent role_id c.agent_roles })

-- `emergencyRevoke`
unfoldable pub emergency_revoke : String → String → RbacContract → Option RbacContract
emergency_revoke sender agent c =
    only_proxy sender c (record c { agent_roles = delete agent c.agent_roles })

-- `getAgentRole`
unfoldable pub get_agent_role : String → RbacContract → String × Bool
get_agent_role agent c =
    let role_id = or_zero (get agent c.agent_roles) in (role_id, not (role_id == zero_role))
