-- ===== src/Api/Pipeline/Granted.antt =====
-- What the permission middleware passes on without a flag (src/api/middleware/rbac.ts).
use zuul_proxy.Prelude.{ℕ, String, ◌≡◌, refl, inl, inr, some, arith}
use zuul_proxy.Types.{Result-cases, PermissionAction, Role, SignedRequest, Result, ok, err}
use zuul_proxy.Errors.{ZuulError}
use zuul_proxy.Config.{ToolConfig}
use zuul_proxy.Proxy.ActionMapper.{infer_action}
use zuul_proxy.Proxy.Registry.{ToolRegistry, find_tool}
use zuul_proxy.Rbac.Cache.{RoleWithPermissions, PermissionCache, get_role}
use zuul_proxy.Api.Context.{Context, proceed}
use zuul_proxy.Api.Rbac.{with_unknown_tool, with_role, after_lookup, authorise}
use zuul_proxy.Api.Pipeline.Stages.{IsUnflagged, IsGranted, with_role_granted, with_role_unflagged}

module _ (registry : ToolRegistry) (now later reply_s : ℕ) (outcomes : ℕ → Result String Role)
    (c next : Context) (cache : PermissionCache) (agent : String) (signed : SignedRequest) where
  -- A request that the permission middleware passes on without a flag.
  pub record Granted : Type 0 where
    pub action : PermissionAction
    pub tool : ToolConfig
    pub role : RoleWithPermissions
    pub inferred : infer_action signed.method ≡ ok action
    pub found : find_tool registry signed.target_url ≡ ok tool
    pub looked_up : (get_role now later outcomes agent cache).0 ≡ ok role
    pub granted : IsGranted c tool.key action role
    pub context :
        (record c { tool_key = some tool.key; action = some action; role = some role }) ≡ next

  after_lookup_proceed :
      (tool : String) (action : PermissionAction)
      (r : Result ZuulError RoleWithPermissions × PermissionCache)
      → (after_lookup c reply_s agent tool action r).0 ≡ proceed next
      → (role : RoleWithPermissions) × (r.0 ≡ ok role) × (with_role c tool action role ≡ next)
  unfolding after_lookup
  after_lookup_proceed tool action (ok role, cache') e = (role, refl, cc)
  after_lookup_proceed tool action (err e', cache') e = cc

  pub after_lookup_ok :
      (tool : String) (action : PermissionAction) (role : RoleWithPermissions)
      (r : Result ZuulError RoleWithPermissions × PermissionCache)
      → r.0 ≡ ok role
      → (after_lookup c reply_s agent tool action r).0 ≡ proceed (with_role c tool action role)
  unfolding after_lookup
  after_lookup_ok tool action role (ok role', cache') e = cc
  after_lookup_ok tool action role (err e', cache') e = cc

  pub authorise_proceed :
      (authorise registry now later reply_s outcomes c cache agent signed).0 ≡ proceed next
      → IsUnflagged next
      → Granted
  unfolding authorise with_unknown_tool
  authorise_proceed e h = elim (Result-cases (infer_action signed.method)) [
    | inr (_, bad) ↦ absurd (ground arith)
    | inl (action, inferred) ↦ elim (Result-cases (find_tool registry signed.target_url)) [
      | inr (e', unknown) ↦ absurd (ground (arith, h.known))
      | inl (tool, found) ↦
          let (role, looked_up, same) =
            after_lookup_proceed tool.key action (get_role now later outcomes agent cache)
              (rw (inferred, found, authorise) at e) in
          let granted = with_role_unflagged c tool.key action role (rw (← same) at h) in
          record {
            action = action;
            tool = tool;
            role = role;
            inferred = inferred;
            found = found;
            looked_up = looked_up;
            granted = granted;
            context = cc (with_role_granted c tool.key action role granted, same);
          }
    ]
  ]

  pub authorise_proceed_of :
      Granted
      → (authorise registry now later reply_s outcomes c cache agent signed).0 ≡ proceed next
  unfolding authorise
  authorise_proceed_of g =
      rw (g.inferred, g.found, authorise)
        (cc (
          after_lookup_ok g.tool.key g.action g.role (get_role now later outcomes agent cache)
              g.looked_up,
          with_role_granted c g.tool.key g.action g.role g.granted,
          g.context,
        ))
