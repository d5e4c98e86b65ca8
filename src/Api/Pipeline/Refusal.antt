-- ===== src/Api/Pipeline/Refusal.antt =====
-- What `/forward/*` answers to a verified request that it refuses, and what it queues for the audit
-- (src/api/server.ts, src/api/middleware/, src/api/handlers/).
use zuul_proxy.Prelude.{ℕ, String, ◌≡◌, ◌≢◌, refl, true, false, Option, none, some}
use zuul_proxy.Prelude.Dict.{get}
use zuul_proxy.Types.{PermissionAction, SignedRequest, ok, err}
use zuul_proxy.Errors.{ZuulError}
use zuul_proxy.Config.{ToolConfig}
use zuul_proxy.Audit.Queue.{World}
use zuul_proxy.Auth.Acceptance.{verify_signed_request_iff}
use zuul_proxy.Proxy.ActionMapper.{infer_action}
use zuul_proxy.Proxy.Registry.{find_tool}
use zuul_proxy.Proxy.Executor.{UpstreamCall}
use zuul_proxy.Rbac.Cache.{RoleWithPermissions, PermissionCache, get_role}
use zuul_proxy.Api.Context.{HttpRequest, Context, Flag, Denial, new_context, Outcome, proceed}
use zuul_proxy.Api.Signature.{build_signed_request}
use zuul_proxy.Api.Rbac.{
  permits, revoked_flag, denial, with_unknown_tool, with_role, authorise, rbac_middleware,
}
use zuul_proxy.Api.Forward.{Reply, Ready, ready, forward_handler}
use zuul_proxy.Api.Pipeline.{Server, Platform, Run, Shared, run_handler, handle}
use zuul_proxy.Api.Pipeline.Passing.{address_filled, ready_full}
use zuul_proxy.Api.Pipeline.Granted.{after_lookup_ok}
use zuul_proxy.Api.Pipeline.Settled.{
  summary, Queued, settled, result, IsVerified, handle_settled, Encrypts, audit-Queued,
}

module _ (server : Server) (platform : Platform) (run : Run) (req : HttpRequest) where
  module _ (s : Shared) (c : Context) (v : IsVerified server platform run req s c)
      (action : PermissionAction) where
    -- Why a verified request is refused, with the status and the error type of the answer.
    pub data Refusal : ℕ → String → Type 0 where
      unknown_tool :
          (e : ZuulError)
          → find_tool server.registry v.target ≡ err e
          → Refusal 404 "request/unknown_tool"
      revoked :
          (tool : ToolConfig) (role : RoleWithPermissions)
          → find_tool server.registry v.target ≡ ok tool
          → tool.key ≢ ""
          → (get_role run.now run.later run.outcomes v.agent s.cache).0 ≡ ok role
          → role.is_active ≡ false
          → Refusal 403 "permission/agent_revoked"
      not_granted :
          (tool : ToolConfig) (role : RoleWithPermissions)
          → find_tool server.registry v.target ≡ ok tool
          → tool.key ≢ ""
          → (get_role run.now run.later run.outcomes v.agent s.cache).0 ≡ ok role
          → role.is_active ≡ true
          → permits (get tool.key role.permissions) action ≡ false
          → Refusal 403 "permission/no_action_access"

    signed : SignedRequest
    signed = build_signed_request req v.target

    verified : Context
    verified = record (new_context run.request_id) {
      recovered_address = some v.agent;
      signed_request = some signed;
    }

    authorised : Outcome × PermissionCache
    authorised =
        authorise server.registry run.now run.later run.reply_s run.outcomes verified s.cache
          v.agent signed

    handle_authorised :
        result server platform run req (handle server platform run req s)
        ≡ settled server platform run req authorised.0 s.audit
    unfolding authorised verified rbac_middleware signed
    handle_authorised = handle_settled server platform run req s verified (rw (← v.context) at v)

    -- An answer with no upstream call and one audit entry.
    abbrev Refused : ℕ → String → Reply × Option UpstreamCall × World → Type 0
    Refused status error_type (answer, call, w) =
        (summary answer ≡ (status, some error_type))
        × (call ≡ none)
        × Queued v.agent (build_signed_request req v.target).signature s.audit w

    module _ (encrypts : Encrypts server platform run req) (filled : v.agent ≢ "") where
      Refused-unknown :
          (e : ZuulError)
          → Refused 404 "request/unknown_tool" (
              settled server platform run req
                (proceed (with_unknown_tool verified action e))
                s.audit)
      unfolding settled run_handler forward_handler with_unknown_tool verified signed
      Refused-unknown e =
          let r : Ready = record {
            agent = v.agent;
            signed = signed;
            tool = "unknown";
            action = action;
          } in
          let next = with_unknown_tool verified action e in
          let complete : ready next ≡ some r =
            ready_full server platform run req next r refl refl refl refl filled
              (λ h. absurd (cc)) in
          (
            rw (complete, forward_handler) refl,
            rw (complete, forward_handler) refl,
            audit-Queued server platform run req next r (run_handler server platform run req next).0
                s.audit complete encrypts,
          )

      module _ (tool : String) (role : RoleWithPermissions) (named : tool ≢ "") where
        attached : Context
        attached = record verified { tool_key = some tool; action = some action; role = some role }

        parts : Ready
        parts = record { agent = v.agent; signed = signed; tool = tool; action = action }

        with_role_revoked :
            role.is_active ≡ false
            → (f : Flag) × (with_role verified tool action role
                ≡ (record attached { agent_revoked = some f }))
        unfolding with_role attached
        with_role_revoked inactive = (revoked_flag, rw inactive refl)

        with_role_denied :
            role.is_active ≡ true
            → permits (get tool role.permissions) action ≡ false
            → (d : Denial) × (with_role verified tool action role
                ≡ (record attached { permission_denied = some d }))
        unfolding with_role attached
        with_role_denied active denied =
            (denial tool action (get tool role.permissions), rw (active, denied) refl)

        Refused-revoked :
            (f : Flag)
            → Refused 403 "permission/agent_revoked" (
                settled server platform run req
                  (proceed (record attached { agent_revoked = some f }))
                  s.audit)
        unfolding settled run_handler forward_handler attached verified signed parts
        Refused-revoked f =
            let next = record attached { agent_revoked = some f } in
            let complete : ready next ≡ some parts =
              ready_full server platform run req next parts refl refl refl refl filled named in
            (
              rw (complete, forward_handler) refl,
              rw (complete, forward_handler) refl,
              audit-Queued server platform run req next parts
                  (run_handler server platform run req next).0 s.audit complete encrypts,
            )

        Refused-denied :
            (d : Denial)
            → Refused 403 "permission/no_action_access" (
                settled server platform run req
                  (proceed (record attached { permission_denied = some d }))
                  s.audit)
        unfolding settled run_handler forward_handler attached verified signed parts
        Refused-denied d =
            let next = record attached { permission_denied = some d } in
            let complete : ready next ≡ some parts =
              ready_full server platform run req next parts refl refl refl refl filled named in
            (
              rw (complete, forward_handler) refl,
              rw (complete, forward_handler) refl,
              audit-Queued server platform run req next parts
                  (run_handler server platform run req next).0 s.audit complete encrypts,
            )

      authorised_role :
          (tool : ToolConfig) (role : RoleWithPermissions)
          → infer_action req.method ≡ ok action
          → find_tool server.registry v.target ≡ ok tool
          → (get_role run.now run.later run.outcomes v.agent s.cache).0 ≡ ok role
          → authorised.0 ≡ proceed (with_role verified tool.key action role)
      unfolding authorised authorise build_signed_request signed
      authorised_role tool role inferred found looked_up =
          rw (inferred, found, authorise)
            (after_lookup_ok server.registry run.now run.later run.reply_s run.outcomes verified
              verified s.cache v.agent signed tool.key action role
              (get_role run.now run.later run.outcomes v.agent s.cache) looked_up)

      refused :
          (status : ℕ) (error_type : String)
          → infer_action req.method ≡ ok action
          → Refusal status error_type
          → Refused status error_type (settled server platform run req authorised.0 s.audit)
      unfolding authorised authorise build_signed_request signed
      refused _ _ inferred (unknown_tool e unknown) =
          rw (inferred, unknown, authorise) (Refused-unknown e)
      refused _ _ inferred (revoked tool role found named looked_up inactive) =
          let (f, same) = with_role_revoked tool.key role named inactive in
          rw (authorised_role tool role inferred found looked_up, same)
            (Refused-revoked tool.key role named f)
      refused _ _ inferred (not_granted tool role found named looked_up active denied) =
          let (d, same) = with_role_denied tool.key role named active denied in
          rw (authorised_role tool role inferred found looked_up, same)
            (Refused-denied tool.key role named d)

    -- Where encryption always succeeds, for a verified request whose method has an action: if its
    -- target belongs to no tool, it is answered with status 404, and if the target's tool has a
    -- key that is not empty and the agent's role is inactive, or does not grant the action on the
    -- tool, with status 403; the error type is the one for the case, no upstream call is made, and
    -- exactly one audit entry is queued, for the agent and with the request's signature.
    pub handle_refuses :
        (status : ℕ) (error_type : String)
        → Encrypts server platform run req
        → infer_action req.method ≡ ok action
        → Refusal status error_type
        → (summary (handle server platform run req s).answer ≡ (status, some error_type))
          × ((handle server platform run req s).call ≡ none)
          × Queued v.agent
              (build_signed_request req v.target).signature
              s.audit
              (handle server platform run req s).shared.audit
    handle_refuses status error_type encrypts inferred why =
        let admissible =
          (verify_signed_request_iff platform.recover run.verify_ms
              (build_signed_request req v.target) s.nonces v.agent).0
            v.verified in
        let filled = address_filled server platform run req v.agent admissible.address in
        let h = refused encrypts filled status error_type inferred why in
        rw (← handle_authorised) at h
