-- ===== src/Chain/Roles.antt =====
-- The roles of the configuration, and how src/chain/evm.ts and src/chain/hedera.ts find the one
-- that the chain's hash stands for.
use zuul_proxy.Prelude.{
  String, Bool, true, List, [], ◌∷◌, Option, none, some, map, if◌then◌else◌, ◌==◌,
}
use zuul_proxy.Prelude.Text.{to_lower_case, codes_eq}
use zuul_proxy.Types.{Permission, Role, Result, ok, err}
use zuul_proxy.Config.{PermissionConfig, RoleConfig}

abbrev pub permission : PermissionConfig → Permission
permission p = record { tool = p.tool; actions = p.actions }

-- `{ ...role, isActive: true }`
unfoldable pub active_role : RoleConfig → Role
active_role r = record {
  id = r.id;
  name = r.name;
  permissions = map permission r.permissions;
  is_active = true;
}

-- `(config?.roles || []).map(...)`
unfoldable pub configured_roles : Option (List RoleConfig) → List Role
unfolding active_role
configured_roles none = []
configured_roles (some l) = map active_role l

-- `a.toLowerCase() === b.toLowerCase()`
abbrev pub same_hash : String → String → Bool
same_hash a b = codes_eq (to_lower_case a) (to_lower_case b)

-- `roles.find(...)`, with what the callback throws; `hash` is the hash of a role id.
unfoldable pub find_role :
    (String → Result String String) → String → List Role → Result String (Option Role)
find_role hash role_id [] = ok none
find_role hash role_id (r ∷ rs) = elim (hash r.id) [
  | err message ↦ err message
  | ok h ↦ if same_hash h role_id then ok (some r) else find_role hash role_id rs
]

-- The role for the answer of `getAgentRole`: `active` is the chain's flag.
abbrev pub role_with : String → Bool → Option Role → Role
role_with role_id active none = record {
  id = role_id;
  name = "Unknown Role";
  permissions = [];
  is_active = active;
}
role_with role_id active (some r) = record r { is_active = active }

abbrev pub with_flag : String → Bool → Result String (Option Role) → Result String Role
with_flag role_id active (err message) = err message
with_flag role_id active (ok found) = ok (role_with role_id active found)

-- `getRoleForAgent`, with a hash of role ids and the answer of the contract: the same steps in both
-- drivers.
unfoldable pub read_role :
    (String → Result String String)
    → (String → String → Result String (String × Bool))
    → String
    → List Role
    → String
    → Result String Role
unfolding find_role
read_role hash read contract roles agent =
    if contract == ""
    then err "RBAC_CONTRACT_ADDRESS not set in environment"
    else elim (read contract agent) [
      | err message ↦ err message
      | ok (role_id, active) ↦ with_flag role_id active (find_role hash role_id roles)
    ]
