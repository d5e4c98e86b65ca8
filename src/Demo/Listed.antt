-- ===== src/Demo/Listed.antt =====
-- What the client learns of its tools (demo/agent.ts, src/api/handlers/rpc.ts).
use zuul_proxy.Prelude.{ℕ, String, some}
use zuul_proxy.Prelude.Json.{Json, text, field, end}
use zuul_proxy.Types.{Role, Result}
use zuul_proxy.Errors.{ZuulError}
use zuul_proxy.Proxy.Registry.{ToolRegistry}
use zuul_proxy.Rbac.Cache.{RoleWithPermissions, PermissionCache}
use zuul_proxy.Api.Rpc.{RpcResponse, value, rpc_handler}
use zuul_proxy.Api.RpcSchema.{RpcRequest, list}
use zuul_proxy.Demo.Agent.{Account}
use zuul_proxy.Demo.Answer.{tools_list_body}

module _ (registry : ToolRegistry) (chain_id : ℕ)
    (other_role : Json → Result ZuulError RoleWithPermissions) (other_text : Json → String)
    (request_id : String) (reply_s now later : ℕ) (outcomes : ℕ → Result String Role)
    (account : Account) (id : String) (cache : PermissionCache) where
  -- The proxy's answer to the client's request for its tools.
  abbrev pub answer : RpcResponse
  answer =
      (rpc_handler registry chain_id other_role other_text request_id reply_s now later outcomes
        (value (tools_list_body account id)) cache).0

  request : RpcRequest
  request = record {
    method = list;
    params = some (field "agent_address" (text account.address) end);
    id = some (text id);
  }
