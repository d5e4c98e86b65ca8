-- ===== src/Rbac/Cache.antt =====
-- src/rbac/cache.ts: the permission cache over the chain. `outcomes n` is what the n-th read of the
-- chain driver's `getRoleForAgent` gives in one call of `get`: a role, or the message of what it
-- throws.
pub mod Grants
pub mod Reads
pub mod Staleness
use zuul_proxy.Prelude.{
  ℕ, zero, suc, ◌+◌, ◌*◌, String, Bool, true, false, ◌||◌, List, [], ◌∷◌, ◌++◌, Option, none, some,
  ltb, eqb, ◌==◌, if◌then◌else◌,
}
use zuul_proxy.Prelude.Dict.{Dict, get, set, delete, size}
use zuul_proxy.Prelude.Number.{nat}
use zuul_proxy.Types.{
  PermissionAction, read, create, update, Permission, Role, Result, ok, err, text, number,
}
use zuul_proxy.Errors.{ZuulError, new_service_error, minus}

-- `a === b` on actions
abbrev rank : PermissionAction → ℕ
rank read = 0
rank create = 1
rank update = 2
rank PermissionAction.delete = 3

abbrev pub same_action : PermissionAction → PermissionAction → Bool
same_action a b = eqb (rank a) (rank b)

-- `list.includes(action)`, and `set.has(action)`: a `Set` is its items in insertion order.
unfoldable pub includes : PermissionAction → List PermissionAction → Bool
includes a [] = false
includes a (b ∷ l) = same_action b a || includes a l

-- `new Set(actions)`, from the items `seen` on
unfoldable pub add_all : List PermissionAction → List PermissionAction → List PermissionAction
add_all seen [] = seen
add_all seen (a ∷ l) = add_all (if includes a seen then seen else seen ++ a ∷ []) l

pub record RoleWithPermissions : Type 0 where
  pub role_id : String
  pub is_active : Bool
  pub permissions : Dict (List PermissionAction)

-- The loop of `convertToRoleWithPermissions`.
unfoldable pub add_permissions :
    List Permission → Dict (List PermissionAction) → Dict (List PermissionAction)
add_permissions [] m = m
add_permissions (p ∷ ps) m = add_permissions ps (set p.tool (add_all [] p.actions) m)

unfoldable pub convert_to_role_with_permissions : Role → RoleWithPermissions
convert_to_role_with_permissions role = record {
  role_id = role.id;
  is_active = role.is_active;
  permissions = add_permissions role.permissions [];
}

pub record Cached : Type 0 where
  pub role : RoleWithPermissions
  pub expires_at : ℕ

pub record PermissionCache : Type 0 where
  pub cache : Dict Cached
  pub ttl_seconds : ℕ

abbrev pub max_attempts : ℕ
max_attempts = 3

-- `lastError?.message || 'Unknown error'`
abbrev last_message : Option String → String
last_message none = "Unknown error"
last_message (some m) = if m == "" then "Unknown error" else m

unfoldable pub unavailable : Option String → ZuulError
unfolding new_service_error
unavailable last_error =
    new_service_error "RBAC lookup failed: blockchain unavailable" (minus 32022) 503
      "service/unavailable"
      (("reason", text "RBAC chain lookup failed")
        ∷ ("attempts", number (nat max_attempts))
        ∷ ("lastError", text (last_message last_error))
        ∷ [])

-- The loop of `readFromChainWithRetry`, with the attempts left and the number of the next one.
unfoldable pub attempts_from :
    (ℕ → Result String Role) → ℕ → ℕ → Option String → Result ZuulError RoleWithPermissions
attempts_from outcomes zero attempt last_error = err (unavailable last_error)
attempts_from outcomes (suc left) attempt last_error = elim (outcomes attempt) [
  | ok role ↦ ok (convert_to_role_with_permissions role)
  | err message ↦ attempts_from outcomes left (suc attempt) (some message)
]

unfoldable pub read_from_chain_with_retry :
    (ℕ → Result String Role) → Result ZuulError RoleWithPermissions
unfolding attempts_from
read_from_chain_with_retry outcomes = attempts_from outcomes max_attempts 0 none

-- `cached && cached.expiresAt > Date.now()`
abbrev pub live : ℕ → Option Cached → Option RoleWithPermissions
live now none = none
live now (some e) = if ltb now e.expires_at then some e.role else none

-- What `get` does with the chain's answer; `later` is the clock when it arrives.
unfoldable pub store :
    ℕ
    → String
    → Result ZuulError RoleWithPermissions
    → PermissionCache
    → Result ZuulError RoleWithPermissions × PermissionCache
store later agent (err e) c = (err e, c)
store later agent (ok role) c = (
  ok role,
  record c {
    cache = set agent (record { role = role; expires_at = later + c.ttl_seconds * 1000 }) c.cache;
  },
)

-- `get`, at the time `now`.
unfoldable pub get_role :
    ℕ
    → ℕ
    → (ℕ → Result String Role)
    → String
    → PermissionCache
    → Result ZuulError RoleWithPermissions × PermissionCache
get_role now later outcomes agent c = elim (live now (get agent c.cache)) [
  | some role ↦ (ok role, c)
  | none ↦ store later agent (read_from_chain_with_retry outcomes) c
]

unfoldable pub invalidate : String → PermissionCache → PermissionCache
invalidate agent c = record c { cache = delete agent c.cache }

unfoldable pub clear : PermissionCache → PermissionCache
clear c = record c { cache = [] }

unfoldable pub get_metrics : PermissionCache → ℕ × ℕ
get_metrics c = (size c.cache, c.ttl_seconds)
