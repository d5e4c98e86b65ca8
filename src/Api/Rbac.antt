-- ===== src/Api/Rbac.antt =====
-- src/api/middleware/rbac.ts. The flags for an unknown tool, a revoked agent and a missing
-- permission are left in the context, and the audit middleware runs before the handler answers.
use zuul_proxy.Prelude.{
  ℕ, String, Bool, false, not, List, [], ◌∷◌, Option, none, some, if◌then◌else◌,
}
use zuul_proxy.Prelude.Dict.{get}
use zuul_proxy.Prelude.Text.{concat}
use zuul_proxy.Types.{
  PermissionAction, read, create, update, Role, SignedRequest, Result, ok, err, text,
}
use zuul_proxy.Errors.{ZuulError, minus}
use zuul_proxy.Proxy.ActionMapper.{infer_action}
use zuul_proxy.Proxy.Registry.{ToolRegistry, find_tool}
use zuul_proxy.Rbac.Cache.{RoleWithPermissions, PermissionCache, get_role, includes}
use zuul_proxy.Api.Context.{
  Context, Flag, Denial, Outcome, respond, proceed, rpc_error, plain_governance,
}

-- The text of an action.
abbrev pub action_text : PermissionAction → String
action_text read = "read"
action_text create = "create"
action_text update = "update"
action_text PermissionAction.delete = "delete"

-- `toolPermissions ? Array.from(toolPermissions) : []`
abbrev or_none : Option (List PermissionAction) → List PermissionAction
or_none none = []
or_none (some actions) = actions

-- `toolPermissions && toolPermissions.has(action)`
abbrev pub permits : Option (List PermissionAction) → PermissionAction → Bool
permits none action = false
permits (some actions) action = includes action actions

-- The answer where the context lacks the address or the request.
incomplete : Context → ℕ → Outcome
incomplete c reply_s = respond (record {
  status = 500;
  body =
      rpc_error (minus 32603) "Internal server error" []
        (plain_governance c.request_id reply_s "service/internal_error");
})

bad_method : Context → ℕ → String → ZuulError → Outcome
bad_method c reply_s agent e = respond (record {
  status = 400;
  body =
      rpc_error e.code e.message []
        (record (plain_governance c.request_id reply_s "request/malformed") { agent = some agent });
})

unavailable : Context → ℕ → String → String → PermissionAction → ZuulError → Outcome
unavailable c reply_s agent tool action e = respond (record {
  status = 503;
  body =
      rpc_error e.code e.message e.info
        (record (plain_governance c.request_id reply_s "service/unavailable") {
          agent = some agent;
          tool = some tool;
          action = some action;
        });
})

unfoldable pub with_unknown_tool : Context → PermissionAction → ZuulError → Context
with_unknown_tool c action e = record c {
  tool_key = some "unknown";
  action = some action;
  unknown_tool = some (record { code = e.code; message = e.message; info = e.info });
}

abbrev pub revoked_flag : Flag
revoked_flag = record {
  code = minus 32012;
  message = "Agent is revoked";
  info = ("reason", text "emergency_revoke") ∷ [];
}

abbrev pub denial : String → PermissionAction → Option (List PermissionAction) → Denial
denial tool action granted = record {
  code = minus 32011;
  message = concat "Permission denied: " (concat tool (concat "." (action_text action)));
  allowed_actions = or_none granted;
}

-- Steps 4 to 7.
unfoldable pub with_role : Context → String → PermissionAction → RoleWithPermissions → Context
with_role c tool action role =
    let attached = record c { tool_key = some tool; action = some action; role = some role } in
    if not role.is_active
    then record attached { agent_revoked = some revoked_flag }
    else if not (permits (get tool role.permissions) action)
    then record attached {
      permission_denied = some (denial tool action (get tool role.permissions));
    }
    else attached

-- From step 3's answer on.
unfoldable pub after_lookup :
    Context
    → ℕ
    → String
    → String
    → PermissionAction
    → Result ZuulError RoleWithPermissions × PermissionCache
    → Outcome × PermissionCache
unfolding unavailable
after_lookup c reply_s agent tool action (err e, cache) =
    (unavailable c reply_s agent tool action e, cache)
after_lookup c reply_s agent tool action (ok role, cache) =
    (proceed (with_role c tool action role), cache)

module _ (registry : ToolRegistry) where
  -- Steps 1 to 3, for an agent and its request: `now` and `later` are the clock of the cache's
  -- lookup and of its store.
  unfoldable pub authorise :
      ℕ
      → ℕ
      → ℕ
      → (ℕ → Result String Role)
      → Context
      → PermissionCache
      → String
      → SignedRequest
      → Outcome × PermissionCache
  unfolding bad_method
  authorise now later reply_s outcomes c cache agent signed = elim (infer_action signed.method) [
    | err e ↦ (bad_method c reply_s agent e, cache)
    | ok action ↦ elim (find_tool registry signed.target_url) [
      | err e ↦ (proceed (with_unknown_tool c action e), cache)
      | ok tool ↦
          after_lookup c reply_s agent tool.key action (get_role now later outcomes agent cache)
    ]
  ]

  unfoldable pub rbac_middleware :
      ℕ → ℕ → ℕ → (ℕ → Result String Role) → Context → PermissionCache → Outcome × PermissionCache
  unfolding incomplete
  rbac_middleware now later reply_s outcomes c cache = elim c.recovered_address [
    | none ↦ (incomplete c reply_s, cache)
    | some agent ↦ elim c.signed_request [
      | none ↦ (incomplete c reply_s, cache)
      | some signed ↦ authorise now later reply_s outcomes c cache agent signed
    ]
  ]
