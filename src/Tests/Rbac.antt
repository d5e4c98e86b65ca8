-- ===== src/Tests/Rbac.antt =====
-- The permission cache at concrete reads of the chain.
use zuul_proxy.Prelude.{ℕ, zero, suc, String, ◌≡◌, ◌↔◌, ◌⊎◌, refl, Any, none, some, [], ◌∷◌}
use zuul_proxy.Prelude.Dict.{get, set}
use zuul_proxy.Types.{Role, Result, read, ok, err}
use zuul_proxy.Errors.{new_service_error}
use zuul_proxy.Rbac.Cache.{
  RoleWithPermissions, convert_to_role_with_permissions, get_role, store, attempts_from,
  read_from_chain_with_retry, unavailable,
}
use zuul_proxy.Rbac.Cache.Grants.{grants, last_actions, grants-convert}
use zuul_proxy.Rbac.Cache.Reads.{
  hit, FirstAnswer, AllFail, IsUnavailable, get_role_ok_iff, get_role_fails_closed,
}
use zuul_proxy.Rbac.Cache.Staleness.{Read, here, next, settle, IsRecent, live-IsRecent}
use zuul_proxy.Tests.Data.{agent, reader, cache}

-- The first read fails and the second gives the role.
abbrev second : ℕ → Result String Role
second zero = err "timeout"
second (suc n) = ok reader

abbrev down : ℕ → Result String Role
down n = err "timeout"

abbrev granted : RoleWithPermissions
unfolding convert_to_role_with_permissions
granted = convert_to_role_with_permissions reader

get_role_ok_iff_example : ((get_role 1000 1005 second agent cache).0 ≡ ok granted) ↔ (
    (hit 1000 1005 second agent cache ≡ some granted)
    ⊎ ((hit 1000 1005 second agent cache ≡ none)
        × ((role : Role) × FirstAnswer second role
            × (convert_to_role_with_permissions role ≡ granted))))
get_role_ok_iff_example = get_role_ok_iff 1000 1005 second agent cache granted

get_role_fails_closed_example :
    (hit 1000 1005 down agent cache ≡ none)
    × AllFail down
    × IsUnavailable (unavailable (some "timeout"))
    × ((get_role 1000 1005 down agent cache).1 ≡ cache)
unfolding get_role read_from_chain_with_retry attempts_from unavailable new_service_error get store
get_role_fails_closed_example =
    get_role_fails_closed 1000 1005 down agent cache (unavailable (some "timeout")) refl

abbrev stored_read : Read
stored_read = record { at = 1005; agent = agent; role = granted }

live-IsRecent_example : Any (IsRecent agent 300 2000 granted) (stored_read ∷ [])
unfolding get set store
live-IsRecent_example =
    live-IsRecent agent cache refl (store 1005 agent (ok granted) cache).1 (stored_read ∷ [])
      (next here (settle stored_read cache [])) 2000 granted refl

grants-convert_example :
    grants (get "github" (convert_to_role_with_permissions reader).permissions) read
    ≡ grants (last_actions "github" reader.permissions) read
grants-convert_example = grants-convert reader "github" read
