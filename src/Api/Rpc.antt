-- ===== src/Api/Rpc.antt =====
-- src/api/handlers/rpc.ts: tools/list and tools/describe.
pub mod Listing
pub mod Describing
use zuul_proxy.Prelude.{
  ℕ, String, Bool, true, false, ◌&&◌, not, List, [], ◌∷◌, Option, none, some, map, ◌==◌,
  if◌then◌else◌,
}
use zuul_proxy.Prelude.Dict.{get}
use zuul_proxy.Prelude.Number.{ℤ, nan, int}
use zuul_proxy.Prelude.Text.{concat}
use zuul_proxy.Prelude.Json.{
  Json, Fields, null, bool, number, fraction, text, arr, obj, get_field, is_truthy, has_no_text,
  or_null,
}
use zuul_proxy.Api.RpcSchema.{RpcMethod, list, describe, RpcRequest, parse_request}
use zuul_proxy.Types.{PermissionAction, HttpMethod, Role, Result, ok, err}
use zuul_proxy.Errors.{ZuulError, minus}
use zuul_proxy.Config.{ToolConfig, EndpointConfig}
use zuul_proxy.Proxy.Registry.{ToolRegistry, get_tool, list_tools}
use zuul_proxy.Rbac.Cache.{RoleWithPermissions, PermissionCache, get_role}

-- The `_governance` object: `agent` is absent, or what the request named (null for nothing).
pub record RpcGovernance : Type 0 where
  pub request_id : String
  pub agent : Option Json
  pub tool : Option Json
  pub chain_id : Option ℕ
  pub timestamp : ℕ
  pub error_type : Option String

-- An item of tools/list.
pub record ToolListItem : Type 0 where
  pub key : String
  pub base_url : String
  pub description : String
  pub allowed_actions : List PermissionAction

pub data RpcBody : Type 0 where
  failure : ℤ → String → RpcBody
  tools : List ToolListItem → RpcBody
  description : ToolConfig → RpcBody

-- `id` is absent, or a value.
pub record RpcResponse : Type 0 where
  pub status : ℕ
  pub id : Option Json
  pub body : RpcBody
  pub governance : RpcGovernance

-- `request.params?.[name] || null`
unfoldable pub param : String → RpcRequest → Json
unfolding get_field
param name r = elim r.params [ none ↦ null | some fs ↦ or_null (get_field name fs) ]

abbrev no_actions : List PermissionAction → Bool
no_actions [] = true
no_actions (a ∷ l) = false

-- `toolPermissions && toolPermissions.size > 0`, and the item that is pushed.
abbrev pub item_of :
    ToolConfig → Option (List PermissionAction) → List ToolListItem → List ToolListItem
item_of t none rest = rest
item_of t (some []) rest = rest
item_of t (some (a ∷ l)) rest =
    record {
      key = t.key;
      base_url = t.base_url;
      description = t.description;
      allowed_actions = a ∷ l;
    }
    ∷ rest

-- The loop over all tools.
unfoldable pub permitted_tools : RoleWithPermissions → List ToolConfig → List ToolListItem
permitted_tools role [] = []
permitted_tools role (t ∷ ts) = item_of t (get t.key role.permissions) (permitted_tools role ts)

-- From the cache's answer on: nothing for an error or an inactive role.
unfoldable pub visible_tools :
    List ToolConfig → Result ZuulError RoleWithPermissions → List ToolListItem
unfolding permitted_tools
visible_tools all (err e) = []
visible_tools all (ok role) = if not role.is_active then [] else permitted_tools role all

-- `permissionCache.get(agentAddress)`. An address that is no text is looked up as it is, and meets
-- no key of the cache that is a text: `other` is what the cache gives for it.
unfoldable pub agent_role :
    (Json → Result ZuulError RoleWithPermissions)
    → ℕ
    → ℕ
    → (ℕ → Result String Role)
    → Json
    → PermissionCache
    → Result ZuulError RoleWithPermissions × PermissionCache
agent_role other now later outcomes (text agent) cache = get_role now later outcomes agent cache
agent_role other now later outcomes v cache = (other v, cache)

-- `toolRegistry.getTool(toolKey)`; a key that is no text is in no map with text keys.
unfoldable pub find_described : ToolRegistry → Json → Option ToolConfig
unfolding get_tool
find_described registry (text key) = elim (get_tool registry key) [ ok t ↦ some t | err e ↦ none ]
find_described registry v = none

-- The text of a value in a template, where it does not throw; `other` is that of a value that is no
-- text.
abbrev shown : (Json → String) → Json → String
shown other (text s) = s
shown other v = other v

-- `context.req.json()`, which throws on a body that is no JSON.
pub data RpcInput : Type 0 where
  unreadable : RpcInput
  value : Json → RpcInput

-- `body.id || null` of a body that fails the schema; `none` is the throw of a null body.
unfoldable pub rejected_id : Json → Option Json
unfolding get_field
rejected_id null = none
rejected_id (obj fs) = some (or_null (get_field "id" fs))
rejected_id _ = some null

abbrev governance : String → ℕ → ℕ → Option Json → String → RpcGovernance
governance request_id chain_id reply_s agent error_type = record {
  request_id = request_id;
  agent = agent;
  tool = none;
  chain_id = some chain_id;
  timestamp = reply_s;
  error_type = some error_type;
}

module _ (registry : ToolRegistry) (chain_id : ℕ)
    (other_role : Json → Result ZuulError RoleWithPermissions) (other_text : Json → String)
    (request_id : String) (reply_s : ℕ) where
  -- The answer of the `catch`.
  internal : RpcResponse
  internal = record {
    status = 500;
    id = some null;
    body = failure (minus 32603) "Internal server error";
    governance = governance request_id chain_id reply_s none "service/internal_error";
  }

  malformed : Json → RpcResponse
  malformed id = record {
    status = 400;
    id = some id;
    body = failure (minus 32600) "Invalid JSON-RPC request";
    governance = governance request_id chain_id reply_s none "request/malformed";
  }

  listed : RpcRequest → Json → List ToolListItem → RpcResponse
  listed r agent items = record {
    status = 200;
    id = r.id;
    body = tools items;
    governance = record {
      request_id = request_id;
      agent = some agent;
      tool = none;
      chain_id = some chain_id;
      timestamp = reply_s;
      error_type = none;
    };
  }

  unfoldable pub tools_list :
      ℕ
      → ℕ
      → (ℕ → Result String Role)
      → RpcRequest
      → Json
      → PermissionCache
      → RpcResponse × PermissionCache
  unfolding listed
  tools_list now later outcomes r agent cache =
      if is_truthy agent
      then (let (role, cache') = agent_role other_role now later outcomes agent cache in
          (listed r agent (visible_tools (list_tools registry) role), cache'))
      else (listed r agent [], cache)

  missing_key : RpcRequest → Json → RpcResponse
  missing_key r agent = record {
    status = 400;
    id = r.id;
    body = failure (minus 32600) "Missing tool_key parameter";
    governance = governance request_id chain_id reply_s (some agent) "request/malformed";
  }

  unknown_tool : RpcRequest → Json → Json → RpcResponse
  unknown_tool r agent key = record {
    status = 404;
    id = r.id;
    body = failure (minus 32013) (concat "Unknown tool: " (shown other_text key));
    governance =
        record (governance request_id chain_id reply_s (some agent) "request/unknown_tool") {
          tool = some key;
        };
  }

  described : RpcRequest → Json → ToolConfig → RpcResponse
  described r agent t = record {
    status = 200;
    id = r.id;
    body = description t;
    governance = record {
      request_id = request_id;
      agent = some agent;
      tool = some (text t.key);
      chain_id = none;
      timestamp = reply_s;
      error_type = none;
    };
  }

  unfoldable pub tools_describe : RpcRequest → Json → RpcResponse
  unfolding missing_key unknown_tool described internal param
  tools_describe r agent =
      let key = param "tool_key" r in
      if is_truthy key
      then (elim (find_described registry key) [
        | none ↦ if has_no_text key then internal else unknown_tool r agent key
        | some t ↦ described r agent t
      ])
      else missing_key r agent

  -- The two methods; a third cannot come past the schema.
  unfoldable pub dispatch :
      RpcMethod
      → ℕ
      → ℕ
      → (ℕ → Result String Role)
      → RpcRequest
      → Json
      → PermissionCache
      → RpcResponse × PermissionCache
  dispatch list now later outcomes r agent cache = tools_list now later outcomes r agent cache
  dispatch describe now later outcomes r agent cache = (tools_describe r agent, cache)

  rejected : Option Json → RpcResponse
  unfolding malformed internal
  rejected none = internal
  rejected (some id) = malformed id

  unfoldable pub rpc_handler :
      ℕ → ℕ → (ℕ → Result String Role) → RpcInput → PermissionCache → RpcResponse × PermissionCache
  unfolding internal rejected param
  rpc_handler now later outcomes unreadable cache = (internal, cache)
  rpc_handler now later outcomes (value body) cache = elim (parse_request body) [
    | none ↦ (rejected (rejected_id body), cache)
    | some r ↦ dispatch r.method now later outcomes r (param "agent_address" r) cache
  ]
