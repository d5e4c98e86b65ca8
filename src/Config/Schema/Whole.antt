-- ===== src/Config/Schema/Whole.antt =====
-- What a whole configuration that passed the checks satisfies (src/config/schema.ts).
use zuul_proxy.Prelude.{String, ◌≡◌, ◌≢◌, Bool, [], Option, none, some, All, arith}
use zuul_proxy.Prelude.Json.{Json, null, bool, fraction, number, text, arr, obj, get_field}
use zuul_proxy.Config.{CacheConfig, AppConfig}
use zuul_proxy.Config.Schema.{
  array_of, non_empty, positive, or_default, role_schema, cache_schema, server_schema,
  default_server, tool_schema, chain_schema, validate_config,
}
use zuul_proxy.Config.Schema.Inversion.{after, built, or_default_lem, non_empty_lem, array_of-All}
use zuul_proxy.Config.Schema.Valid.{
  IsPositive, IsServer, IsChain, IsTool, IsRole, positive_lem, server_schema-IsServer,
  role_schema-IsRole, tool_schema-IsTool, chain_schema-IsChain,
}

IsCache : CacheConfig → Type 0
IsCache c = IsPositive c.ttl_seconds

cache_schema-IsCache : (v : Option Json) (c : CacheConfig) → cache_schema v ≡ some c → IsCache c
unfolding cache_schema IsCache
cache_schema-IsCache (some (obj fs)) c e =
    after IsCache (or_default 300 positive (get_field "ttlSeconds" fs)) _
      (λ ttl t.
        built IsCache (record { ttl_seconds = ttl })
          (positive_lem 300 (omega arith, omega arith) (get_field "ttlSeconds" fs) ttl t))
      c e
cache_schema-IsCache none c e = cc
cache_schema-IsCache (some null) c e = cc
cache_schema-IsCache (some (bool b)) c e = cc
cache_schema-IsCache (some (number n)) c e = cc
cache_schema-IsCache (some (fraction s)) c e = cc
cache_schema-IsCache (some (text s)) c e = cc
cache_schema-IsCache (some (arr l)) c e = cc

-- A port from 1024 to 65535, positive time limits and time to live, at least one tool and one role,
-- tools with a name, a URL and a key whose variable is set, roles with an id whose permissions name
-- tools, and a chain with its id, URL and contracts.
pub record IsConfig (is_url : String → Bool) (env : String → Option String) (c : AppConfig)
    : Type 0 where
  pub some_tool : c.tools ≢ []
  pub tools : All (IsTool is_url env) c.tools
  pub some_role : c.roles ≢ []
  pub roles : All IsRole c.roles
  pub chain : IsChain is_url c.chain
  pub ttl : IsPositive c.cache.ttl_seconds
  pub server : IsServer c.server

module _ (is_url : String → Bool) (env : String → Option String) where
  abbrev IsGood : AppConfig → Type 0
  IsGood = IsConfig is_url env

  -- A configuration that the schema accepts, from whatever document it comes, has at least one tool
  -- and one role; every tool has a name, a base URL and the name of a variable that is set, every
  -- role an id, and its permissions the names of tools; the chain's id is positive, its URL is one,
  -- and both contract addresses are given; the cache's time to live and both time limits are
  -- positive, and the port is from 1024 to 65535.
  pub validate_config-IsConfig :
      (v : Json) (c : AppConfig) → validate_config is_url env v ≡ some c → IsConfig is_url env c
  unfolding validate_config IsCache
  validate_config-IsConfig (obj fs) c e =
      after IsGood (array_of (tool_schema is_url env) (get_field "tools" fs)) _
        (λ all_tools ts. after IsGood (non_empty all_tools) _ (λ tools t.
          after IsGood (array_of role_schema (get_field "roles" fs)) _ (λ all_roles rs.
            after IsGood (non_empty all_roles) _ (λ roles r.
              after IsGood (chain_schema is_url env (get_field "chain" fs)) _ (λ chain ch.
                after IsGood
                  (or_default (record { ttl_seconds = 300 }) cache_schema (get_field "cache" fs)) _
                  (λ cache ca.
                    after IsGood (or_default default_server server_schema (get_field "server" fs)) _
                      (λ server se.
                        built IsGood
                          (record {
                            tools = tools;
                            roles = roles;
                            chain = chain;
                            cache = cache;
                            server = server;
                          })
                          (record {
                            some_tool = (non_empty_lem all_tools tools t).1;
                            tools = rw (← (non_empty_lem all_tools tools t).0) (
                                array_of-All (IsTool is_url env) (tool_schema is_url env)
                                  (tool_schema-IsTool is_url env) (get_field "tools" fs) all_tools
                                  ts);
                            some_role = (non_empty_lem all_roles roles r).1;
                            roles = rw (← (non_empty_lem all_roles roles r).0) (
                                array_of-All IsRole role_schema role_schema-IsRole
                                  (get_field "roles" fs) all_roles rs);
                            chain = chain_schema-IsChain is_url env (get_field "chain" fs) chain ch;
                            ttl =
                                or_default_lem IsCache (record { ttl_seconds = 300 }) cache_schema
                                  (omega arith, omega arith) cache_schema-IsCache
                                  (get_field "cache" fs) cache ca;
                            server =
                                or_default_lem IsServer default_server server_schema
                                  (record {
                                    port = (omega arith, omega arith);
                                    read_timeout = (omega arith, omega arith);
                                    write_timeout = (omega arith, omega arith);
                                  })
                                  server_schema-IsServer (get_field "server" fs) server se;
                          }))))))))
        c e
  validate_config-IsConfig null c e = cc
  validate_config-IsConfig (bool b) c e = cc
  validate_config-IsConfig (number n) c e = cc
  validate_config-IsConfig (fraction s) c e = cc
  validate_config-IsConfig (text s) c e = cc
  validate_config-IsConfig (arr l) c e = cc
