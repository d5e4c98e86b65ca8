-- ===== src/Api/Pipeline/Authorisation.antt =====
-- When `/forward/*` calls an upstream (src/api/server.ts, src/api/middleware/, src/api/handlers/).
use zuul_proxy.Prelude.{String, ◌≡◌, ◌≢◌, refl, sym, ap, ◌∙◌, ◌↔◌, true, some}
use zuul_proxy.Prelude.Dict.{get}
use zuul_proxy.Types.{PermissionAction, SignedRequest, ok, text}
use zuul_proxy.Config.{ToolConfig}
use zuul_proxy.Auth.Guards.{is_http_method, is_raw_signature_headers}
use zuul_proxy.Auth.Signature.{NonceValidator}
use zuul_proxy.Auth.Acceptance.{IsAdmissible, verify_signed_request_iff}
use zuul_proxy.Custody.{get_key, inject}
use zuul_proxy.Proxy.ActionMapper.{infer_action}
use zuul_proxy.Proxy.Registry.{find_tool}
use zuul_proxy.Proxy.Executor.{UpstreamCall, build_call}
use zuul_proxy.Rbac.Cache.{RoleWithPermissions, PermissionCache, get_role}
use zuul_proxy.Api.Context.{HttpRequest, Context, new_context, Outcome, proceed}
use zuul_proxy.Api.Signature.{as_values, forward_path, build_signed_request, signature_middleware}
use zuul_proxy.Api.Rbac.{permits, rbac_middleware}
use zuul_proxy.Api.Forward.{Ready}
use zuul_proxy.Api.Pipeline.{Server, Platform, Run, Shared, run_handler, handle}
use zuul_proxy.Api.Pipeline.Stages.{signature_proceed, signature_proceed_of, IsUnflagged}
use zuul_proxy.Api.Pipeline.Forwarded.{handler_call, handler_call_of}
use zuul_proxy.Api.Pipeline.Granted.{Granted, authorise_proceed, authorise_proceed_of}
use zuul_proxy.Api.Pipeline.Passing.{
  rbac_stage, after_signature_call, after_signature_call_of, ready_named, ready_full,
  address_filled,
}

module _ (server : Server) (platform : Platform) (run : Run) (req : HttpRequest) where
  -- The conditions under which a request makes the call: it is signed by an agent, the agent's
  -- active role grants the method's action on the tool that the target belongs to, and the call
  -- carries that tool's key.
  pub record IsAuthorised (s : Shared) (u : UpstreamCall) : Type 0 where
    pub encoded : String
    pub target : String
    pub agent : String
    pub action : PermissionAction
    pub tool : ToolConfig
    pub role : RoleWithPermissions
    pub handle : String
    pub key : String
    pub headers : is_raw_signature_headers (as_values req.headers) ≡ true
    pub path : forward_path req.path ≡ some encoded
    pub decoded : platform.decode encoded ≡ some target
    pub method : is_http_method (text req.method) ≡ true
    pub admissible :
        IsAdmissible platform.recover run.verify_ms (build_signed_request req target) agent s.nonces
    pub inferred : infer_action req.method ≡ ok action
    pub found : find_tool server.registry target ≡ ok tool
    pub named : tool.key ≢ ""
    pub looked_up : (get_role run.now run.later run.outcomes agent s.cache).0 ≡ ok role
    pub active : role.is_active ≡ true
    pub permitted : permits (get tool.key role.permissions) action ≡ true
    pub held : get_key tool.key server.vault ≡ ok handle
    pub injected : inject handle server.vault ≡ ok key
    pub call :
        build_call server.timeouts
          (record {
            method = req.method;
            target_url = target;
            headers = req.headers;
            body = req.body;
          })
          key
        ≡ u

  -- What the context of a verified request holds.
  signed_context : String → SignedRequest → Context
  signed_context agent signed = record (new_context run.request_id) {
    recovered_address = some agent;
    signed_request = some signed;
  }

  verify_stage : NonceValidator → Outcome × NonceValidator
  verify_stage v =
      signature_middleware platform.recover platform.decode run.verify_ms run.reply_s req
        (new_context run.request_id) v

  rbac_stage_signed :
      (c next : Context) (cache : PermissionCache) (agent : String) (signed : SignedRequest)
      → signed_context agent signed ≡ c
      → (rbac_stage server platform run req c cache).0 ≡ proceed next
      → IsUnflagged next
      → Granted server.registry run.now run.later run.reply_s run.outcomes c next cache agent signed
  unfolding rbac_stage rbac_middleware signed_context
  rbac_stage_signed c next cache agent signed same e h =
      authorise_proceed server.registry run.now run.later run.reply_s run.outcomes c next cache
        agent signed
        (rw
          (
            ap (λ (x : Context). x.recovered_address) (sym same),
            ap (λ (x : Context). x.signed_request) (sym same),
            rbac_middleware,
          )
          at e)
        h

  handle_call_IsAuthorised :
      (s : Shared) (u : UpstreamCall)
      → (handle server platform run req s).call ≡ some u
      → IsAuthorised s u
  unfolding handle verify_stage run_handler build_signed_request signed_context
  handle_call_IsAuthorised s u e =
      let (c, signed, (next, passed, called)) =
        after_signature_call server platform run req (verify_stage s.nonces) s u e in
      let v =
        signature_proceed platform.recover platform.decode run.verify_ms run.reply_s req
          (new_context run.request_id) c s.nonces signed in
      let f =
        handler_call server.vault server.timeouts server.chain_id platform.fetch run.latency_ms
          run.reply_s req next u called in
      let g =
        rbac_stage_signed c next s.cache v.agent (build_signed_request req v.target) v.context
          passed f.unflagged in
      let (parts, named) =
        ready_named server platform run req next v.agent g.tool.key
          (build_signed_request req v.target) g.action f.parts
          (sym (ap (λ (x : Context). x.recovered_address) g.context)
            ∙ sym (ap (λ (x : Context). x.recovered_address) v.context))
          (sym (ap (λ (x : Context). x.signed_request) g.context)
            ∙ sym (ap (λ (x : Context). x.signed_request) v.context))
          (sym (ap (λ (x : Context). x.tool_key) g.context))
          (sym (ap (λ (x : Context). x.action) g.context)) f.complete in
      record {
        encoded = v.encoded;
        target = v.target;
        agent = v.agent;
        action = g.action;
        tool = g.tool;
        role = g.role;
        handle = f.handle;
        key = f.key;
        headers = v.headers;
        path = v.path;
        decoded = v.decoded;
        method = v.method;
        admissible =
            (verify_signed_request_iff platform.recover run.verify_ms
                (build_signed_request req v.target) s.nonces v.agent).0
              v.verified;
        inferred = g.inferred;
        found = g.found;
        named = named;
        looked_up = g.looked_up;
        active = g.granted.0;
        permitted = g.granted.1;
        held = rw (ap (λ (r : Ready). r.tool) parts) f.held;
        injected = f.injected;
        call = rw (← ap (λ (r : Ready). r.signed) parts) at f.call;
      }

  IsAuthorised-call :
      (s : Shared) (u : UpstreamCall)
      → IsAuthorised s u
      → (handle server platform run req s).call ≡ some u
  unfolding handle verify_stage run_handler build_signed_request signed_context
  IsAuthorised-call s u h =
      let signed = build_signed_request req h.target in
      let c = signed_context h.agent signed in
      let next = record c {
        tool_key = some h.tool.key;
        action = some h.action;
        role = some h.role;
      } in
      after_signature_call_of server platform run req (verify_stage s.nonces) s u c next
        (signature_proceed_of platform.recover platform.decode run.verify_ms run.reply_s req
          (new_context run.request_id) c s.nonces
          (record {
            encoded = h.encoded;
            target = h.target;
            agent = h.agent;
            headers = h.headers;
            path = h.path;
            decoded = h.decoded;
            method = h.method;
            verified =
                (verify_signed_request_iff platform.recover run.verify_ms signed s.nonces h.agent).1
                  h.admissible;
            context = refl;
          }))
        (unfold rbac_stage rbac_middleware in
          authorise_proceed_of server.registry run.now run.later run.reply_s run.outcomes c next
            s.cache h.agent signed
            (record {
              action = h.action;
              tool = h.tool;
              role = h.role;
              inferred = h.inferred;
              found = h.found;
              looked_up = h.looked_up;
              granted = (h.active, h.permitted);
              context = refl;
            }))
        (handler_call_of server.vault server.timeouts server.chain_id platform.fetch run.latency_ms
          run.reply_s req next u
          (record {
            parts = record {
              agent = h.agent;
              signed = signed;
              tool = h.tool.key;
              action = h.action;
            };
            handle = h.handle;
            key = h.key;
            complete =
                ready_full server platform run req next
                  (record {
                    agent = h.agent;
                    signed = signed;
                    tool = h.tool.key;
                    action = h.action;
                  })
                  refl refl refl refl
                  (address_filled server platform run req h.agent h.admissible.address) h.named;
            unflagged = record { known = refl; active = refl; permitted = refl };
            held = h.held;
            injected = h.injected;
            call = h.call;
          }))

  -- A request to `/forward/*` makes an upstream call exactly if it is authorised for that call: its
  -- headers, path and method are well formed, its signature is accepted for an agent, its method's
  -- action is granted by the agent's active role on the tool of its target, whose key is not empty,
  -- and the call is the signed method and target with the API key that the tool's handle injects.
  pub handle_call_iff :
      (s : Shared) (u : UpstreamCall)
      → ((handle server platform run req s).call ≡ some u) ↔ IsAuthorised s u
  handle_call_iff s u = (handle_call_IsAuthorised s u, IsAuthorised-call s u)
