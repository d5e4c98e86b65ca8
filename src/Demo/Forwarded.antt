-- ===== src/Demo/Forwarded.antt =====
-- From the client to the upstream: a call that the client makes is forwarded (demo/agent.ts,
-- src/api/server.ts).
use zuul_proxy.Prelude.{ℕ, ◌/◌, String, ◌≡◌, ◌≢◌, refl, true, some, none}
use zuul_proxy.Prelude.Dict.{Dict, get}
use zuul_proxy.Prelude.Number.{nat}
use zuul_proxy.Types.{HttpMethod, PermissionAction, ok}
use zuul_proxy.Config.{ToolConfig}
use zuul_proxy.Auth.Guards.{method_text}
use zuul_proxy.Auth.Signature.{seconds}
use zuul_proxy.Auth.Signature.Validators.{stored, IsFresh}
use zuul_proxy.Custody.{get_key, inject}
use zuul_proxy.Proxy.ActionMapper.{infer_action}
use zuul_proxy.Proxy.Registry.{find_tool}
use zuul_proxy.Proxy.Executor.{ForwardRequest, build_call}
use zuul_proxy.Rbac.Cache.{RoleWithPermissions, get_role}
use zuul_proxy.Api.Rbac.{permits}
use zuul_proxy.Api.Pipeline.{Server, Platform, Run, Shared, handle}
use zuul_proxy.Api.Pipeline.Authorisation.{handle_call_iff}
use zuul_proxy.Demo.Agent.{Account, call_tool}
use zuul_proxy.Demo.Accepted.{
  IsClient, sent, sent_headers, forward_path-concat, is_http_method-method_text, sent-IsAdmissible,
}

module _ (server : Server) (platform : Platform) (run : Run) (account : Account)
    (encode : String → String) (method : HttpMethod) (url nonce body : String) (now_ms : ℕ)
    (added : Dict String) where
  -- What the proxy knows of the client: a role that grants the method on the tool of the URL, and
  -- the key of that tool.
  pub record IsPermitted (s : Shared) (key : String) : Type 0 where
    pub action : PermissionAction
    pub tool : ToolConfig
    pub role : RoleWithPermissions
    pub handle : String
    pub inferred : infer_action (method_text method) ≡ ok action
    pub found : find_tool server.registry url ≡ ok tool
    pub named : tool.key ≢ ""
    pub looked_up : (get_role run.now run.later run.outcomes account.address s.cache).0 ≡ ok role
    pub active : role.is_active ≡ true
    pub permitted : permits (get tool.key role.permissions) action ≡ true
    pub held : get_key tool.key server.vault ≡ ok handle
    pub injected : inject handle server.vault ≡ ok key

  abbrev pub request : ForwardRequest
  request =
      let req =
        sent platform.recover platform.decode account encode method url nonce body now_ms added in
      record { method = req.method; target_url = url; headers = req.headers; body = req.body }

  -- A call that the client makes reaches its upstream: if the clocks are at most five minutes
  -- apart, the nonce is not stored for the client, its active role grants the method's action on
  -- the tool that the URL belongs to, and the tool's key is held, then the proxy makes the call
  -- with that key.
  pub call_tool_forwarded :
      IsClient platform.recover platform.decode account encode method url nonce body now_ms added
      → (s : Shared) (key : String) → stored account.address nonce s.nonces ≡ none
      → IsFresh (seconds run.verify_ms) (nat (now_ms / 1000))
      → IsPermitted s key
      → (handle server platform run
          (sent platform.recover platform.decode account encode method url nonce body now_ms added)
          s).call
        ≡ some (build_call server.timeouts request key)
  call_tool_forwarded h s key unused fresh p =
      let req =
        sent platform.recover platform.decode account encode method url nonce body now_ms added in
      (handle_call_iff server platform run req s (build_call server.timeouts request key)).1
        (record {
          encoded = encode url;
          target = url;
          agent = account.address;
          action = p.action;
          tool = p.tool;
          role = p.role;
          handle = p.handle;
          key = key;
          headers =
              sent_headers platform.recover platform.decode account encode method url nonce body
                now_ms added h;
          path = unfold call_tool in forward_path-concat (encode url) h.encoded h.line;
          decoded = h.decoded;
          method = unfold call_tool in is_http_method-method_text method;
          admissible =
              sent-IsAdmissible platform.recover platform.decode account encode method url nonce
                body now_ms added h run.verify_ms s.nonces unused fresh;
          inferred = unfold call_tool in p.inferred;
          found = p.found;
          named = p.named;
          looked_up = p.looked_up;
          active = p.active;
          permitted = p.permitted;
          held = p.held;
          injected = p.injected;
          call = refl;
        })
