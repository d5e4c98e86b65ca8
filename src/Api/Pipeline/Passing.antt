-- ===== src/Api/Pipeline/Passing.antt =====
-- How a request passes the stages of `/forward/*`, and what the handler needs to be ready
-- (src/api/server.ts, src/api/handlers/forward.ts).
use zuul_proxy.Prelude.{
  String, ◌≡◌, ◌≢◌, refl, inl, inr, true, ◌||◌, some, arith, eq_iff, ◌==◌, Bool-cases,
}
use zuul_proxy.Types.{PermissionAction, SignedRequest, text}
use zuul_proxy.Auth.Guards.{is_agent_address}
use zuul_proxy.Auth.Signature.{NonceValidator}
use zuul_proxy.Proxy.Executor.{UpstreamCall}
use zuul_proxy.Rbac.Cache.{PermissionCache}
use zuul_proxy.Api.Context.{HttpRequest, Context, Outcome, respond, proceed}
use zuul_proxy.Api.Rbac.{rbac_middleware}
use zuul_proxy.Api.Forward.{Ready, ready}
use zuul_proxy.Api.Pipeline.{
  Server, Platform, Run, Shared, run_handler, audited, after_rbac, after_signature,
}

module _ (server : Server) (platform : Platform) (run : Run) (req : HttpRequest) where
  unfoldable pub rbac_stage : Context → PermissionCache → Outcome × PermissionCache
  rbac_stage c cache =
      rbac_middleware server.registry run.now run.later run.reply_s run.outcomes c cache

  pub after_signature_call :
      (o : Outcome × NonceValidator) (s : Shared) (u : UpstreamCall)
      → (after_signature server platform run req o s).call ≡ some u
      → (c : Context) × (o.0 ≡ proceed c)
        × ((next : Context) × ((rbac_stage c s.cache).0 ≡ proceed next)
            × ((run_handler server platform run req next).1 ≡ some u))
  unfolding after_signature rbac_stage after_rbac audited
  after_signature_call (respond r, v) s u e = cc
  after_signature_call (proceed c, v) s u e = (c, refl, go (rbac_stage c s.cache) e)
    where
      go :
          (o : Outcome × PermissionCache)
          → (after_rbac server platform run req o (record s { nonces = v })).call ≡ some u
          → (next : Context) × (o.0 ≡ proceed next)
            × ((run_handler server platform run req next).1 ≡ some u)
      go (respond r, cache) e = cc
      go (proceed next, cache) e = (next, refl, e)

  pub after_signature_call_of :
      (o : Outcome × NonceValidator) (s : Shared) (u : UpstreamCall) (c next : Context)
      → o.0 ≡ proceed c
      → (rbac_stage c s.cache).0 ≡ proceed next
      → (run_handler server platform run req next).1 ≡ some u
      → (after_signature server platform run req o s).call ≡ some u
  unfolding after_signature rbac_stage after_rbac audited
  after_signature_call_of (respond r, v) s u c next p q e = cc
  after_signature_call_of (proceed c', v) s u c next p q e =
      go (rbac_stage c' s.cache) (rw (proceed_inj p) q)
    where
      proceed_inj : proceed c' ≡ proceed c → c' ≡ c
      proceed_inj h = cc

      go :
          (o : Outcome × PermissionCache)
          → o.0 ≡ proceed next
          → (after_rbac server platform run req o (record s { nonces = v })).call ≡ some u
      go (respond r, cache) q = cc
      go (proceed next', cache) q = let same : next' ≡ next = cc in rw same e

  pub ready_named :
      (c : Context) (agent tool : String) (signed : SignedRequest) (action : PermissionAction)
      (r : Ready)
      → c.recovered_address ≡ some agent
      → c.signed_request ≡ some signed
      → c.tool_key ≡ some tool
      → c.action ≡ some action
      → ready c ≡ some r
      → (record { agent = agent; signed = signed; tool = tool; action = action } ≡ r) × (tool ≢ "")
  unfolding ready
  ready_named c agent tool signed action r p q t a e =
      let e' = rw (p, q, t, a, ready) at e in
      elim (Bool-cases (agent == "" || tool == "")) [
        | inl blank ↦ absurd (ground arith)
        | inr filled ↦ (ground arith, λ h. ground (arith, eq_iff tool ""))
      ]

  pub address_filled : (agent : String) → is_agent_address (text agent) ≡ true → agent ≢ ""
  unfolding is_agent_address
  address_filled agent h blank = absurd (cc (blank, h))

  pub ready_full :
      (c : Context) (r : Ready)
      → c.recovered_address ≡ some r.agent
      → c.signed_request ≡ some r.signed
      → c.tool_key ≡ some r.tool
      → c.action ≡ some r.action
      → r.agent ≢ ""
      → r.tool ≢ ""
      → ready c ≡ some r
  unfolding ready
  ready_full c r p q t a agent tool =
      rw (p, q, t, a, ready) (ground (arith, eq_iff r.agent "", eq_iff r.tool ""))
