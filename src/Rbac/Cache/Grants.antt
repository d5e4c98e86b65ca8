-- ===== src/Rbac/Cache/Grants.antt =====
-- What the cached form of a role grants, against the role itself (src/rbac/cache.ts).
use zuul_proxy.Prelude.{
  String, ◌≡◌, refl, ◌∙◌, Bool, true, false, ◌||◌, List, [], ◌∷◌, ◌++◌, Option, none, some, arith,
  ◌==◌, if◌then◌else◌,
}
use zuul_proxy.Prelude.Dict.{Dict, get, set, get-set}
use zuul_proxy.Types.{PermissionAction, read, Permission, Role}
use zuul_proxy.Rbac.Cache.{
  includes, same_action, add_all, add_permissions, convert_to_role_with_permissions,
}

same_action_refl : (a : PermissionAction) → same_action a a ≡ true
same_action_refl read = refl
same_action_refl _ = refl

same_action-eq : (a b : PermissionAction) → same_action a b ≡ true → a ≡ b
same_action-eq a b h = ground arith

includes-append :
    (a b : PermissionAction) (s : List PermissionAction)
    → includes a (s ++ b ∷ []) ≡ (includes a s || same_action b a)
unfolding includes
includes-append a b [] = ground arith
includes-append a b (c ∷ s) = ground (arith, includes-append a b s)

includes-add_all :
    (a : PermissionAction) (seen l : List PermissionAction)
    → includes a (add_all seen l) ≡ (includes a seen || includes a l)
unfolding includes add_all
includes-add_all a seen [] = ground arith
includes-add_all a seen (b ∷ l) = ground (
  arith,
  includes-add_all a seen l,
  includes-add_all a (seen ++ b ∷ []) l,
  includes-append a b seen,
  same_action-eq b a,
)

-- The actions of the last permission entry for a tool.
pub last_actions : String → List Permission → Option (List PermissionAction)
last_actions tool [] = none
last_actions tool (p ∷ ps) = elim (last_actions tool ps) [
  | some actions ↦ some actions
  | none ↦ if p.tool == tool then some p.actions else none
]

-- What the middleware tests: `toolPermissions && toolPermissions.has(action)`.
abbrev pub grants : Option (List PermissionAction) → PermissionAction → Bool
grants none a = false
grants (some actions) a = includes a actions

add_permissions-last :
    (tool : String) (a : PermissionAction) (ps : List Permission) (m : Dict (List PermissionAction))
    → grants (get tool (add_permissions ps m)) a ≡ (elim (last_actions tool ps) [
      | some actions ↦ includes a actions
      | none ↦ grants (get tool m) a
    ])
unfolding add_permissions last_actions includes
add_permissions-last tool a [] m = refl
add_permissions-last tool a (p ∷ ps) m = ground (
  arith,
  add_permissions-last tool a ps (set p.tool (add_all [] p.actions) m),
  get-set p.tool tool (add_all [] p.actions) m,
  includes-add_all a [] p.actions,
)

-- The cached role grants an action on a tool exactly if the last permission entry of the role for
-- that tool lists the action: an earlier entry for the same tool grants nothing.
pub grants-convert :
    (role : Role) (tool : String) (a : PermissionAction)
    → grants (get tool (convert_to_role_with_permissions role).permissions) a
      ≡ grants (last_actions tool role.permissions) a
unfolding convert_to_role_with_permissions get
grants-convert role tool a = add_permissions-last tool a role.permissions [] ∙ ground arith

pub grants_none : (tool : String) (a : PermissionAction) → grants (last_actions tool []) a ≡ false
unfolding last_actions
grants_none tool a = refl
