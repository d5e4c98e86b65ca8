-- ===== src/Config/Schema.antt =====
-- src/config/schema.ts: the checks of the configuration. zod's combinators are written out as zod
-- documents them; `is_url` is its check of `url()`, and `env` is `process.env`. `none` is a
-- ZodError.
mod Inversion
pub mod Valid
pub mod Whole
use zuul_proxy.Prelude.{
  ℕ, suc, String, Bool, true, false, ◌&&◌, List, [], ◌∷◌, Option, none, some, ◌==◌, leb,
  if◌then◌else◌,
}
use zuul_proxy.Prelude.Number.{int, pos}
use zuul_proxy.Prelude.Json.{Json, Items, Fields, number, text, arr, obj, nil, cons, get_field}
use zuul_proxy.Types.{PermissionAction, read, create, update, HttpMethod}
use zuul_proxy.Config.{
  EndpointConfig, ToolConfig, PermissionConfig, RoleConfig, ChainName, hedera, base, arbitrum,
  optimism, local, ChainConfig, CacheConfig, ServerConfig, AppConfig,
}

infixl 5 ◌>>=◌
abbrev pub ◌>>=◌ : {A B : Type 0} → Option A → (A → Option B) → Option B
none >>= f = none
some a >>= f = f a

-- `z.string()`
abbrev pub text_of : Option Json → Option String
text_of (some (text s)) = some s
text_of _ = none

-- `z.string().min(1)`
abbrev pub filled : Option Json → Option String
filled v = do s ← text_of v; if s == "" then none else some s

-- `z.array(...)`
unfoldable pub parse_items : {A : Type 0} → (Json → Option A) → Items → Option (List A)
parse_items p nil = some []
parse_items p (cons v vs) = do a ← p v; l ← parse_items p vs; some (a ∷ l)

abbrev pub array_of : {A : Type 0} → (Json → Option A) → Option Json → Option (List A)
array_of p (some (arr vs)) = parse_items p vs
array_of p _ = none

-- `.min(1)` on an array
abbrev pub non_empty : {A : Type 0} → List A → Option (List A)
non_empty [] = none
non_empty (a ∷ l) = some (a ∷ l)

-- The largest integer that `int()` lets pass.
abbrev pub max_safe : ℕ
max_safe = 9007199254740991

-- `z.number().int()` from `low` to `high`, where `low` is not negative
abbrev pub in_range : ℕ → ℕ → Option Json → Option ℕ
in_range low high (some (number (int (pos n)))) = if leb low n && leb n high then some n else none
in_range low high _ = none

-- `z.number().int().positive()`
abbrev pub positive : Option Json → Option ℕ
positive v = in_range 1 max_safe v

-- `.default(d)`
abbrev pub or_default : {A : Type 0} → A → (Option Json → Option A) → Option Json → Option A
or_default d p none = some d
or_default d p (some v) = p (some v)

abbrev http_method : Json → Option HttpMethod
http_method (text s) =
    if s == "GET"
    then some HttpMethod.get
    else if s == "HEAD"
    then some HttpMethod.head
    else if s == "POST"
    then some HttpMethod.post
    else if s == "PUT"
    then some HttpMethod.put
    else if s == "PATCH"
    then some HttpMethod.patch
    else if s == "DELETE"
    then some HttpMethod.delete
    else none
http_method _ = none

abbrev action : Json → Option PermissionAction
action (text s) =
    if s == "read"
    then some read
    else if s == "create"
    then some create
    else if s == "update"
    then some update
    else if s == "delete"
    then some PermissionAction.delete
    else none
action _ = none

abbrev chain_name : Option Json → Option ChainName
chain_name (some (text s)) =
    if s == "hedera"
    then some hedera
    else if s == "base"
    then some base
    else if s == "arbitrum"
    then some arbitrum
    else if s == "optimism"
    then some optimism
    else if s == "local"
    then some local
    else none
chain_name _ = none

-- `EndpointSchema`
unfoldable pub endpoint_schema : Json → Option EndpointConfig
unfolding get_field parse_items
endpoint_schema (obj fs) = do
  path ← filled (get_field "path" fs)
  methods ← array_of http_method (get_field "methods" fs)
  description ← filled (get_field "description" fs)
  some (record { path = path; methods = methods; description = description })
endpoint_schema _ = none

-- `PermissionConfigSchema`
unfoldable pub permission_schema : Json → Option PermissionConfig
unfolding get_field parse_items
permission_schema (obj fs) = do
  tool ← filled (get_field "tool" fs)
  actions ← array_of action (get_field "actions" fs)
  some (record { tool = tool; actions = actions })
permission_schema _ = none

-- `RoleConfigSchema`
unfoldable pub role_schema : Json → Option RoleConfig
unfolding get_field parse_items permission_schema
role_schema (obj fs) = do
  id ← filled (get_field "id" fs)
  name ← filled (get_field "name" fs)
  permissions ← array_of permission_schema (get_field "permissions" fs)
  some (record { id = id; name = name; permissions = permissions })
role_schema _ = none

-- `CacheConfigSchema`
unfoldable pub cache_schema : Option Json → Option CacheConfig
unfolding get_field
cache_schema (some (obj fs)) = do
  ttl ← or_default 300 positive (get_field "ttlSeconds" fs)
  some (record { ttl_seconds = ttl })
cache_schema _ = none

-- `ServerConfigSchema`
unfoldable pub server_schema : Option Json → Option ServerConfig
unfolding get_field
server_schema (some (obj fs)) = do
  port ← or_default 8080 (in_range 1024 65535) (get_field "port" fs)
  host ← or_default "0.0.0.0" text_of (get_field "host" fs)
  read_timeout ← or_default 30000 positive (get_field "readTimeoutMs" fs)
  write_timeout ← or_default 60000 positive (get_field "writeTimeoutMs" fs)
  some (record {
    port = port;
    host = host;
    read_timeout_ms = read_timeout;
    write_timeout_ms = write_timeout;
  })
server_schema _ = none

abbrev default_server : ServerConfig
default_server = record {
  port = 8080;
  host = "0.0.0.0";
  read_timeout_ms = 30000;
  write_timeout_ms = 60000;
}

module _ (is_url : String → Bool) (env : String → Option String) where
  -- `z.string().url()`
  abbrev pub url : Option Json → Option String
  url v = do s ← text_of v; if is_url s then some s else none

  -- `z.string().min(1)`, and the name of a variable that is set
  abbrev pub variable : Option Json → Option String
  variable v = do s ← filled v; _ ← env s; some s

  -- `ToolConfigSchema`
  unfoldable pub tool_schema : Json → Option ToolConfig
  unfolding get_field parse_items endpoint_schema
  tool_schema (obj fs) = do
    key ← filled (get_field "key" fs)
    description ← filled (get_field "description" fs)
    base_url ← url (get_field "baseUrl" fs)
    key_ref ← variable (get_field "keyRef" fs)
    endpoints ← or_default [] (array_of endpoint_schema) (get_field "endpoints" fs)
    some (record {
      key = key;
      description = description;
      base_url = base_url;
      key_ref = key_ref;
      endpoints = endpoints;
    })
  tool_schema _ = none

  -- `ChainConfigSchema`
  unfoldable pub chain_schema : Option Json → Option ChainConfig
  unfolding get_field
  chain_schema (some (obj fs)) = do
    name ← chain_name (get_field "name" fs)
    chain_id ← positive (get_field "chainId" fs)
    rpc_url ← url (get_field "rpcUrl" fs)
    rbac ← filled (get_field "rbacContractAddress" fs)
    audit ← filled (get_field "auditContractAddress" fs)
    some (record {
      name = name;
      chain_id = chain_id;
      rpc_url = rpc_url;
      rbac_contract_address = rbac;
      audit_contract_address = audit;
    })
  chain_schema _ = none

  -- `validateConfig`
  unfoldable pub validate_config : Json → Option AppConfig
  unfolding get_field parse_items tool_schema role_schema chain_schema cache_schema server_schema
  validate_config (obj fs) = do
    all_tools ← array_of tool_schema (get_field "tools" fs)
    tools ← non_empty all_tools
    all_roles ← array_of role_schema (get_field "roles" fs)
    roles ← non_empty all_roles
    chain ← chain_schema (get_field "chain" fs)
    cache ← or_default (record { ttl_seconds = 300 }) cache_schema (get_field "cache" fs)
    server ← or_default default_server server_schema (get_field "server" fs)
    some (record { tools = tools; roles = roles; chain = chain; cache = cache; server = server })
  validate_config _ = none
