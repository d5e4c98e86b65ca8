-- ===== src/System/Cache.antt =====
-- What a request leaves in the permission cache (src/api/server.ts, src/api/middleware/rbac.ts).
use zuul_proxy.Prelude.{ℕ, String, ◌≡◌, refl, ◌∙◌, ◌⊎◌, inl, inr, some, Option-cases}
use zuul_proxy.Types.{PermissionAction, Role, SignedRequest, Result, ok, err, Result-cases}
use zuul_proxy.Errors.{ZuulError}
use zuul_proxy.Auth.Signature.{NonceValidator}
use zuul_proxy.Proxy.ActionMapper.{infer_action}
use zuul_proxy.Proxy.Registry.{ToolRegistry, find_tool}
use zuul_proxy.Rbac.Cache.{RoleWithPermissions, PermissionCache, get_role}
use zuul_proxy.Api.Context.{HttpRequest, Context, new_context, Outcome, respond, proceed}
use zuul_proxy.Api.Signature.{signature_middleware}
use zuul_proxy.Api.Rbac.{after_lookup, authorise, rbac_middleware}
use zuul_proxy.Api.Pipeline.{
  Server, Platform, Run, Shared, audited, after_rbac, after_signature, handle,
}

module _ (registry : ToolRegistry) (now later reply_s : ℕ) (outcomes : ℕ → Result String Role)
    (c : Context) (cache : PermissionCache) where
  -- The cache as it was, or as a lookup of the agent leaves it.
  abbrev Looked : String → PermissionCache → Type 0
  Looked agent d = (d ≡ cache) ⊎ (d ≡ (get_role now later outcomes agent cache).1)

  after_lookup-cache :
      (agent tool : String) (action : PermissionAction)
      (r : Result ZuulError RoleWithPermissions × PermissionCache)
      → (after_lookup c reply_s agent tool action r).1 ≡ r.1
  unfolding after_lookup
  after_lookup-cache agent tool action (ok role, d) = refl
  after_lookup-cache agent tool action (err e, d) = refl

  authorise-Looked :
      (agent : String) (signed : SignedRequest)
      → Looked agent (authorise registry now later reply_s outcomes c cache agent signed).1
  unfolding authorise
  authorise-Looked agent signed = elim (Result-cases (infer_action signed.method)) [
    | inr (e, bad) ↦ inl (rw (bad, authorise) refl)
    | inl (action, inferred) ↦ elim (Result-cases (find_tool registry signed.target_url)) [
      | inr (e, unknown) ↦ inl (rw (inferred, unknown, authorise) refl)
      | inl (tool, found) ↦ inr (
          rw (inferred, found, authorise)
            (after_lookup-cache agent tool.key action (get_role now later outcomes agent cache)))
    ]
  ]

  -- The permission middleware looks up no agent but the one that the context names.
  rbac-Looked :
      let d = (rbac_middleware registry now later reply_s outcomes c cache).1 in
      (d ≡ cache)
      ⊎ ((agent : String) × (c.recovered_address ≡ some agent)
          × (d ≡ (get_role now later outcomes agent cache).1))
  unfolding rbac_middleware
  rbac-Looked = elim (Option-cases c.recovered_address) [
    | inl missing ↦ inl (rw (missing, rbac_middleware) refl)
    | inr (agent, named) ↦ elim (Option-cases c.signed_request) [
      | inl missing ↦ inl (rw (named, missing, rbac_middleware) refl)
      | inr (signed, there) ↦ elim (authorise-Looked agent signed) [
        | inl same ↦ inl (rw (named, there, rbac_middleware) same)
        | inr looked ↦ inr (agent, named, rw (named, there, rbac_middleware) looked)
      ]
    ]
  ]

module _ (server : Server) (platform : Platform) (run : Run) (req : HttpRequest) (s : Shared) where
  after_rbac-cache :
      (o : Outcome × PermissionCache) (t : Shared)
      → (after_rbac server platform run req o t).shared.cache ≡ o.1
  unfolding after_rbac audited
  after_rbac-cache (respond r, d) t = refl
  after_rbac-cache (proceed c, d) t = refl

  -- A lookup of the agent that the request is verified for, in the cache before it.
  pub record IsLookup (d : PermissionCache) : Type 0 where
    pub context : Context
    pub agent : String
    pub verified :
        (signature_middleware platform.recover platform.decode run.verify_ms run.reply_s req
          (new_context run.request_id)
          s.nonces).0
        ≡ proceed context
    pub named : context.recovered_address ≡ some agent
    pub left : d ≡ (get_role run.now run.later run.outcomes agent s.cache).1

  after_signature-IsLookup :
      (o : Outcome × NonceValidator)
      → (signature_middleware platform.recover platform.decode run.verify_ms run.reply_s req
          (new_context run.request_id)
          s.nonces).0
        ≡ o.0
      → let d = (after_signature server platform run req o s).shared.cache in
        (d ≡ s.cache) ⊎ IsLookup d
  unfolding after_signature
  after_signature-IsLookup (respond r, v) e = inl refl
  after_signature-IsLookup (proceed c, v) e =
      let o =
        rbac_middleware server.registry run.now run.later run.reply_s run.outcomes c s.cache in
      let kept = after_rbac-cache o (record s { nonces = v }) in
      elim (rbac-Looked server.registry run.now run.later run.reply_s run.outcomes c s.cache) [
        | inl same ↦ inl (kept ∙ same)
        | inr (agent, named, looked) ↦ inr (record {
          context = c;
          agent = agent;
          verified = e;
          named = named;
          left = kept ∙ looked;
        })
      ]

  pub handle-IsLookup :
      let d = (handle server platform run req s).shared.cache in (d ≡ s.cache) ⊎ IsLookup d
  unfolding handle
  handle-IsLookup =
      after_signature-IsLookup
        (signature_middleware platform.recover platform.decode run.verify_ms run.reply_s req
          (new_context run.request_id) s.nonces)
        refl
