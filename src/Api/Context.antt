-- ===== src/Api/Context.antt =====
-- The request, the context that the middleware share, and the responses (src/api/). The names of
-- a request's headers are in lower case, as the platform gives them.
use zuul_proxy.Prelude.{ℕ, String, List, Option, none, some}
use zuul_proxy.Prelude.Dict.{Dict}
use zuul_proxy.Prelude.Number.{ℤ}
use zuul_proxy.Types.{PermissionAction, SignedRequest}
use zuul_proxy.Errors.{Info}
use zuul_proxy.Rbac.Cache.{RoleWithPermissions}

pub record HttpRequest : Type 0 where
  pub method : String
  pub path : String
  pub headers : Dict String
  pub body : String

-- The `permissionDenied` flag.
pub record Denial : Type 0 where
  pub code : ℤ
  pub message : String
  pub allowed_actions : List PermissionAction

-- The `unknownTool` and `agentRevoked` flags.
pub record Flag : Type 0 where
  pub code : ℤ
  pub message : String
  pub info : Info

-- The values that `context.set` stores under their names.
pub record Context : Type 0 where
  pub request_id : String
  pub recovered_address : Option String
  pub signed_request : Option SignedRequest
  pub tool_key : Option String
  pub action : Option PermissionAction
  pub role : Option RoleWithPermissions
  pub unknown_tool : Option Flag
  pub agent_revoked : Option Flag
  pub permission_denied : Option Denial

abbrev pub new_context : String → Context
new_context request_id = record {
  request_id = request_id;
  recovered_address = none;
  signed_request = none;
  tool_key = none;
  action = none;
  role = none;
  unknown_tool = none;
  agent_revoked = none;
  permission_denied = none;
}

-- The `_governance` object.
pub record Governance : Type 0 where
  pub request_id : String
  pub agent : Option String
  pub tool : Option String
  pub action : Option PermissionAction
  pub target_url : Option String
  pub latency_ms : Option ℕ
  pub chain_id : Option ℕ
  pub timestamp : ℕ
  pub error_type : Option String

-- The body of a response: a JSON-RPC error, an upstream result in its envelope, or a stream behind
-- a governance event.
pub data Body : Type 0 where
  rpc_error : ℤ → String → Info → Governance → Body
  wrapped : String → Governance → Body
  events : Governance → Body

pub record Response : Type 0 where
  pub status : ℕ
  pub body : Body

-- A middleware answers, or calls the next one with the context that it leaves.
pub data Outcome : Type 0 where
  respond : Response → Outcome
  proceed : Context → Outcome

-- A governance object with nothing but the request's id, a time and an error type.
abbrev pub plain_governance : String → ℕ → String → Governance
plain_governance request_id timestamp error_type = record {
  request_id = request_id;
  agent = none;
  tool = none;
  action = none;
  target_url = none;
  latency_ms = none;
  chain_id = none;
  timestamp = timestamp;
  error_type = some error_type;
}
