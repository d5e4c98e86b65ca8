-- ===== src/Api/Admin/Revoke/Served.antt =====
-- What the permission cache serves after a revocation (src/api/handlers/admin.ts,
-- src/rbac/cache.ts, src/api/middleware/rbac.ts).
use zuul_proxy.Prelude.{ℕ, String, ◌≡◌, refl, ◌∙◌, false, none, some, arith, eq_refl}
use zuul_proxy.Prelude.Dict.{get, get-delete}
use zuul_proxy.Types.{PermissionAction, Role, SignedRequest, Result, ok}
use zuul_proxy.Config.{ToolConfig}
use zuul_proxy.Audit.Contract.{Written}
use zuul_proxy.Proxy.ActionMapper.{infer_action}
use zuul_proxy.Proxy.Registry.{ToolRegistry, find_tool}
use zuul_proxy.Rbac.Cache.{
  RoleWithPermissions, PermissionCache, get_role, invalidate, convert_to_role_with_permissions,
  read_from_chain_with_retry,
}
use zuul_proxy.Rbac.Cache.Reads.{FirstAnswer, miss_result, read_of_FirstAnswer}
use zuul_proxy.Api.Context.{Context, proceed}
use zuul_proxy.Api.Rbac.{with_role, authorise, revoked_flag}
use zuul_proxy.Api.Pipeline.Granted.{after_lookup_ok}
use zuul_proxy.Api.Admin.Revoke.{Environment, Viem, perform_emergency_revoke}
use zuul_proxy.Api.Admin.Revoke.Effect.{perform_emergency_revoke-IsSettled}

pub get-invalidate :
    (agent : String) (cache : PermissionCache) → get agent (invalidate agent cache).cache ≡ none
unfolding invalidate
get-invalidate agent cache = rw (get-delete agent agent cache.cache, eq_refl agent) refl

module _ (now later : ℕ) (outcomes : ℕ → Result String Role) where
  get_role-invalidate :
      (agent : String) (cache : PermissionCache)
      → (get_role now later outcomes agent (invalidate agent cache)).0
        ≡ read_from_chain_with_retry outcomes
  get_role-invalidate agent cache =
      miss_result now later outcomes agent (invalidate agent cache)
        (rw (get-invalidate agent cache) refl)

module _ (env : Environment) (viem : Viem) (fallback : String → String → Written)
    (agent tx : String) (cache after : PermissionCache) where
  -- The run of a revocation that succeeds, with the cache after it.
  abbrev pub Revoked : Type 0
  Revoked = perform_emergency_revoke env viem fallback agent (some cache) ≡ (ok tx, some after)

  pub after_revoke : Revoked → invalidate agent cache ≡ after
  after_revoke e =
      let same = perform_emergency_revoke-IsSettled agent (some cache) env viem fallback in
      cc (rw (e) at same)

  module _ (now later : ℕ) (outcomes : ℕ → Result String Role) where
    -- After an emergency revocation that succeeded, the cache gives for the given spelling of the
    -- agent's address what the chain answers from now on, at any time.
    pub get_role-revoked :
        Revoked → (get_role now later outcomes agent after).0 ≡ read_from_chain_with_retry outcomes
    get_role-revoked e = rw (← after_revoke e) (get_role-invalidate now later outcomes agent cache)

  with_role_revoked :
      (c : Context) (tool : String) (action : PermissionAction) (role : RoleWithPermissions)
      → role.is_active ≡ false
      → (with_role c tool action role).agent_revoked ≡ some revoked_flag
  unfolding with_role
  with_role_revoked c tool action role off = ground arith

  -- After an emergency revocation that succeeded, once the chain answers that the agent's role is
  -- not active, the permission middleware flags as revoked the next request that the agent signs
  -- under the given spelling of its address, whatever the cache held before, for every method and
  -- target that have an action and a tool.
  pub authorise_revoked :
      (registry : ToolRegistry) (now later reply_s : ℕ) (outcomes : ℕ → Result String Role)
      (role : Role) (c : Context) (signed : SignedRequest) (action : PermissionAction)
      (tool : ToolConfig)
      → Revoked
      → FirstAnswer outcomes role
      → role.is_active ≡ false
      → infer_action signed.method ≡ ok action
      → find_tool registry signed.target_url ≡ ok tool
      → (next : Context) × ((authorise registry now later reply_s outcomes c after agent signed).0
          ≡ proceed next)
        × (next.agent_revoked ≡ some revoked_flag)
  unfolding authorise convert_to_role_with_permissions
  authorise_revoked registry now later reply_s outcomes role c signed action tool e first off
        inferred found =
      let converted = convert_to_role_with_permissions role in
      let read = get_role-revoked now later outcomes e ∙ read_of_FirstAnswer outcomes role first in
      (
        with_role c tool.key action converted,
        rw (inferred, found, authorise)
            (after_lookup_ok registry now later reply_s outcomes c
              (with_role c tool.key action converted) after agent signed tool.key action converted
              (get_role now later outcomes agent after) read),
        with_role_revoked c tool.key action converted off,
      )
