-- ===== src/Api/Rpc/Listing.antt =====
-- What tools/list offers an agent, against what the permission middleware lets it do
-- (src/api/handlers/rpc.ts, src/api/middleware/rbac.ts).
use zuul_proxy.Prelude.{
  ℕ, String, ◌≡◌, ◌≢◌, refl, ◌↔◌, ◌⊎◌, inl, inr, true, List, [], ◌∷◌, Option, none, some, Any,
  arith, Bool-cases,
}
use zuul_proxy.Prelude.Dict.{get}
use zuul_proxy.Prelude.Json.{Json, text}
use zuul_proxy.Types.{PermissionAction, Role, Result, ok, err}
use zuul_proxy.Errors.{ZuulError}
use zuul_proxy.Config.{ToolConfig}
use zuul_proxy.Proxy.Registry.{ToolRegistry}
use zuul_proxy.Rbac.Cache.{RoleWithPermissions, PermissionCache, includes}
use zuul_proxy.Api.Rbac.{permits}
use zuul_proxy.Api.Rpc.{
  ToolListItem, RpcBody, failure, tools, description, param, item_of, permitted_tools,
  visible_tools,
}
use zuul_proxy.Api.RpcSchema.{RpcRequest, list, parse_request}

abbrev pub items_of : RpcBody → List ToolListItem
items_of (failure code message) = []
items_of (tools items) = items
items_of (description t) = []

-- Some item offers the action on the tool.
abbrev pub Offers : String → PermissionAction → List ToolListItem → Type 0
Offers key a items =
    Any (λ (i : ToolListItem). (i.key ≡ key) × (includes a i.allowed_actions ≡ true)) items

-- Some tool has the key.
abbrev pub HasTool : String → List ToolConfig → Type 0
HasTool key ts = Any (λ (t : ToolConfig). t.key ≡ key) ts

module _ (key : String) (a : PermissionAction) where
  Offers-item_of :
      (t : ToolConfig) (o : Option (List PermissionAction)) (rest : List ToolListItem)
      → Offers key a (item_of t o rest)
      → ((t.key ≡ key) × (permits o a ≡ true)) ⊎ Offers key a rest
  unfolding includes
  Offers-item_of t none rest h = inr h
  Offers-item_of t (some []) rest h = inr h
  Offers-item_of t (some (b ∷ l)) rest (inl h) = inl h
  Offers-item_of t (some (b ∷ l)) rest (inr h) = inr h

  item_of-Offers :
      (t : ToolConfig) (o : Option (List PermissionAction)) (rest : List ToolListItem)
      → ((t.key ≡ key) × (permits o a ≡ true)) ⊎ Offers key a rest
      → Offers key a (item_of t o rest)
  unfolding includes
  item_of-Offers t none rest (inl (e, h)) = absurd (cc)
  item_of-Offers t none rest (inr h) = h
  item_of-Offers t (some []) rest (inl (e, h)) = absurd (cc)
  item_of-Offers t (some []) rest (inr h) = h
  item_of-Offers t (some (b ∷ l)) rest (inl h) = inl h
  item_of-Offers t (some (b ∷ l)) rest (inr h) = inr h

  permitted_tools_iff :
      (role : RoleWithPermissions) (ts : List ToolConfig)
      → Offers key a (permitted_tools role ts)
        ↔ (HasTool key ts × (permits (get key role.permissions) a ≡ true))
  unfolding permitted_tools
  permitted_tools_iff role [] = (λ h. absurd h, λ (h, _). absurd h)
  permitted_tools_iff role (t ∷ ts) =
      let (down, up) = permitted_tools_iff role ts in
      let o = get t.key role.permissions in
      let rest = permitted_tools role ts in
      (
        λ h. elim (Offers-item_of t o rest h) [
          | inl (same, p) ↦ (inl same, rw (← same) p)
          | inr later ↦ let (has, p) = down later in (inr has, p)
        ],
        λ (has, p). elim has [
          | inl same ↦ item_of-Offers t o rest (inl (same, rw same p))
          | inr later ↦ item_of-Offers t o rest (inr (up (later, p)))
        ],
      )

  -- Why an agent is offered the action on the tool: its role is active and grants it, as the
  -- permission middleware asks.
  pub record IsOffered (all : List ToolConfig) (r : Result ZuulError RoleWithPermissions)
      : Type 0 where
    pub role : RoleWithPermissions
    pub looked_up : r ≡ ok role
    pub active : role.is_active ≡ true
    pub granted : permits (get key role.permissions) a ≡ true
    pub configured : HasTool key all

  pub visible_tools_iff :
      (all : List ToolConfig) (r : Result ZuulError RoleWithPermissions)
      → Offers key a (visible_tools all r) ↔ IsOffered all r
  unfolding visible_tools
  visible_tools_iff all (err e) = (λ h. absurd h, λ h. absurd (cc (h.looked_up)))
  visible_tools_iff all (ok role) = elim (Bool-cases role.is_active) [
    | inr revoked ↦ (
      λ h. let none_left : ⊥ = rw revoked at h in absurd none_left,
      λ h. absurd (ground (arith, h.looked_up, h.active)),
    )
    | inl active ↦ (
      λ h.
          let (has, p) = (permitted_tools_iff role all).0 (rw active at h) in
          record { role = role; looked_up = refl; active = active; granted = p; configured = has },
      λ h.
          let same : h.role ≡ role = cc (h.looked_up) in
          rw active ((permitted_tools_iff role all).1 (h.configured, rw same at h.granted)),
    )
  ]

module _ (registry : ToolRegistry) (chain_id : ℕ)
    (other_role : Json → Result ZuulError RoleWithPermissions) (other_text : Json → String)
    (request_id : String) (reply_s now later : ℕ) (outcomes : ℕ → Result String Role) (body : Json)
    (r : RpcRequest) (agent : String) (cache : PermissionCache) where
  -- A request to list the tools of a named agent.
  pub record Lists : Type 0 where
    pub parsed : parse_request body ≡ some r
    pub method : r.method ≡ list
    pub param : param "agent_address" r ≡ text agent
    pub named : agent ≢ ""
