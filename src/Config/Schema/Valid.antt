-- ===== src/Config/Schema/Valid.antt =====
-- What a configuration that passed the checks satisfies (src/config/schema.ts).
use zuul_proxy.Prelude.{
  ℕ, ◌≤◌, String, ◌≡◌, ◌≢◌, Bool, true, [], Option, none, some, All, arith, if◌then◌else◌,
}
use zuul_proxy.Prelude.Json.{Json, null, bool, fraction, number, text, arr, obj, get_field}
use zuul_proxy.Config.{ToolConfig, RoleConfig, ChainConfig, ServerConfig, PermissionConfig}
use zuul_proxy.Config.Schema.{
  text_of, filled, array_of, max_safe, in_range, positive, or_default, permission_schema,
  role_schema, server_schema, url, variable, tool_schema, chain_schema,
}
use zuul_proxy.Config.Schema.{action, chain_name, endpoint_schema}
use zuul_proxy.Config.Schema.Inversion.{
  after, built, in_range_lem, or_default_lem, filled_lem, array_of-All,
}

-- A positive integer that a number of the source holds exactly.
abbrev pub IsPositive : ℕ → Type 0
IsPositive n = (1 ≤ n) × (n ≤ max_safe)

pub positive_lem :
    (d : ℕ)
    → IsPositive d
    → (v : Option Json) (n : ℕ) → or_default d positive v ≡ some n
    → IsPositive n
positive_lem d base v n e =
    or_default_lem IsPositive d positive base (λ v n. in_range_lem 1 max_safe n v) v n e

pub record IsServer (c : ServerConfig) : Type 0 where
  pub port : (1024 ≤ c.port) × (c.port ≤ 65535)
  pub read_timeout : IsPositive c.read_timeout_ms
  pub write_timeout : IsPositive c.write_timeout_ms

pub server_schema-IsServer :
    (v : Option Json) (c : ServerConfig) → server_schema v ≡ some c → IsServer c
unfolding server_schema
server_schema-IsServer (some (obj fs)) c e =
    after IsServer (or_default 8080 (in_range 1024 65535) (get_field "port" fs)) _
      (λ port p. after IsServer (or_default "0.0.0.0" text_of (get_field "host" fs)) _ (λ host _.
        after IsServer (or_default 30000 positive (get_field "readTimeoutMs" fs)) _ (λ reading r.
          after IsServer (or_default 60000 positive (get_field "writeTimeoutMs" fs)) _ (λ writing w.
            built IsServer
              (record {
                port = port;
                host = host;
                read_timeout_ms = reading;
                write_timeout_ms = writing;
              })
              (record {
                port =
                    or_default_lem (λ n. (1024 ≤ n) × (n ≤ 65535)) 8080 (in_range 1024 65535)
                      (omega arith, omega arith) (λ v n. in_range_lem 1024 65535 n v)
                      (get_field "port" fs) port p;
                read_timeout =
                    positive_lem 30000 (omega arith, omega arith) (get_field "readTimeoutMs" fs)
                      reading r;
                write_timeout =
                    positive_lem 60000 (omega arith, omega arith) (get_field "writeTimeoutMs" fs)
                      writing w;
              })))))
      c e
server_schema-IsServer none c e = cc
server_schema-IsServer (some null) c e = cc
server_schema-IsServer (some (bool b)) c e = cc
server_schema-IsServer (some (number n)) c e = cc
server_schema-IsServer (some (fraction s)) c e = cc
server_schema-IsServer (some (text s)) c e = cc
server_schema-IsServer (some (arr l)) c e = cc

pub record IsChain (is_url : String → Bool) (c : ChainConfig) : Type 0 where
  pub chain_id : IsPositive c.chain_id
  pub rpc_url : is_url c.rpc_url ≡ true
  pub rbac : c.rbac_contract_address ≢ ""
  pub audit : c.audit_contract_address ≢ ""

pub record IsTool (is_url : String → Bool) (env : String → Option String) (t : ToolConfig)
    : Type 0 where
  pub key : t.key ≢ ""
  pub base_url : is_url t.base_url ≡ true
  pub key_ref : (s : String) × (env t.key_ref ≡ some s)

abbrev pub IsNamed : PermissionConfig → Type 0
IsNamed p = p.tool ≢ ""

pub record IsRole (r : RoleConfig) : Type 0 where
  pub id : r.id ≢ ""
  pub tools : All IsNamed r.permissions

permission_schema-IsNamed :
    (v : Json) (p : PermissionConfig) → permission_schema v ≡ some p → IsNamed p
unfolding permission_schema
permission_schema-IsNamed (obj fs) p e =
    after IsNamed (filled (get_field "tool" fs)) _
      (λ tool t. after IsNamed (array_of action (get_field "actions" fs)) _ (λ actions _.
        built IsNamed (record { tool = tool; actions = actions })
          (filled_lem (get_field "tool" fs) tool t)))
      p e
permission_schema-IsNamed null p e = cc
permission_schema-IsNamed (bool b) p e = cc
permission_schema-IsNamed (number n) p e = cc
permission_schema-IsNamed (fraction s) p e = cc
permission_schema-IsNamed (text s) p e = cc
permission_schema-IsNamed (arr l) p e = cc

pub role_schema-IsRole : (v : Json) (r : RoleConfig) → role_schema v ≡ some r → IsRole r
unfolding role_schema
role_schema-IsRole (obj fs) r e =
    after IsRole (filled (get_field "id" fs)) _
      (λ id i. after IsRole (filled (get_field "name" fs)) _ (λ name _.
        after IsRole (array_of permission_schema (get_field "permissions" fs)) _ (λ permissions ps.
          built IsRole (record { id = id; name = name; permissions = permissions })
            (record {
              id = filled_lem (get_field "id" fs) id i;
              tools =
                  array_of-All IsNamed permission_schema permission_schema-IsNamed
                    (get_field "permissions" fs) permissions ps;
            }))))
      r e
role_schema-IsRole null r e = cc
role_schema-IsRole (bool b) r e = cc
role_schema-IsRole (number n) r e = cc
role_schema-IsRole (fraction s) r e = cc
role_schema-IsRole (text s) r e = cc
role_schema-IsRole (arr l) r e = cc

module _ (is_url : String → Bool) (env : String → Option String) where
  url_lem : (v : Option Json) (s : String) → url is_url env v ≡ some s → is_url s ≡ true
  url_lem v s = after (λ s. is_url s ≡ true) (text_of v) _ (λ t _ b. kept t b) s
    where
      kept : (t b : String) → (if is_url t then some t else none) ≡ some b → is_url b ≡ true
      kept t b h = ground arith

  variable_lem :
      (v : Option Json) (s : String)
      → variable is_url env v ≡ some s
      → (x : String) × (env s ≡ some x)
  variable_lem v =
      after (λ s. (x : String) × (env s ≡ some x)) (filled v) _
        (λ t _.
          after (λ s. (x : String) × (env s ≡ some x)) (env t) _
            (λ x found. built (λ s. (x : String) × (env s ≡ some x)) t (x, found)))

  abbrev IsSetTool : ToolConfig → Type 0
  IsSetTool = IsTool is_url env

  pub tool_schema-IsTool :
      (v : Json) (t : ToolConfig) → tool_schema is_url env v ≡ some t → IsSetTool t
  unfolding tool_schema
  tool_schema-IsTool (obj fs) t e =
      after IsSetTool (filled (get_field "key" fs)) _
        (λ key k. after IsSetTool (filled (get_field "description" fs)) _ (λ description _.
          after IsSetTool (url is_url env (get_field "baseUrl" fs)) _ (λ base_url u.
            after IsSetTool (variable is_url env (get_field "keyRef" fs)) _ (λ key_ref r.
              after IsSetTool (or_default [] (array_of endpoint_schema) (get_field "endpoints" fs))
                _
                (λ endpoints _.
                  built IsSetTool
                    (record {
                      key = key;
                      description = description;
                      base_url = base_url;
                      key_ref = key_ref;
                      endpoints = endpoints;
                    })
                    (record {
                      key = filled_lem (get_field "key" fs) key k;
                      base_url = url_lem (get_field "baseUrl" fs) base_url u;
                      key_ref = variable_lem (get_field "keyRef" fs) key_ref r;
                    }))))))
        t e
  tool_schema-IsTool null t e = cc
  tool_schema-IsTool (bool b) t e = cc
  tool_schema-IsTool (number n) t e = cc
  tool_schema-IsTool (fraction s) t e = cc
  tool_schema-IsTool (text s) t e = cc
  tool_schema-IsTool (arr l) t e = cc

  pub chain_schema-IsChain :
      (v : Option Json) (c : ChainConfig) → chain_schema is_url env v ≡ some c → IsChain is_url c
  unfolding chain_schema
  chain_schema-IsChain (some (obj fs)) c e =
      after (IsChain is_url) (chain_name (get_field "name" fs)) _
        (λ name _. after (IsChain is_url) (positive (get_field "chainId" fs)) _ (λ chain_id i.
          after (IsChain is_url) (url is_url env (get_field "rpcUrl" fs)) _ (λ rpc_url u.
            after (IsChain is_url) (filled (get_field "rbacContractAddress" fs)) _ (λ rbac r.
              after (IsChain is_url) (filled (get_field "auditContractAddress" fs)) _ (λ audit a.
                built (IsChain is_url)
                  (record {
                    name = name;
                    chain_id = chain_id;
                    rpc_url = rpc_url;
                    rbac_contract_address = rbac;
                    audit_contract_address = audit;
                  })
                  (record {
                    chain_id = in_range_lem 1 max_safe chain_id (get_field "chainId" fs) i;
                    rpc_url = url_lem (get_field "rpcUrl" fs) rpc_url u;
                    rbac = filled_lem (get_field "rbacContractAddress" fs) rbac r;
                    audit = filled_lem (get_field "auditContractAddress" fs) audit a;
                  }))))))
        c e
  chain_schema-IsChain none c e = cc
  chain_schema-IsChain (some null) c e = cc
  chain_schema-IsChain (some (bool b)) c e = cc
  chain_schema-IsChain (some (number n)) c e = cc
  chain_schema-IsChain (some (fraction s)) c e = cc
  chain_schema-IsChain (some (text s)) c e = cc
  chain_schema-IsChain (some (arr l)) c e = cc
