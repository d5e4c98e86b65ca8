-- ===== src/Tests/Config.antt =====
-- The loading of a configuration at concrete documents.
use zuul_proxy.Prelude.{
  All, String, ◌≡◌, ◌↔◌, refl, [], ◌∷◌, true, Option, some, none, ◌==◌, if◌then◌else◌, Bool,
}
use zuul_proxy.Prelude.Number.{nat}
use zuul_proxy.Prelude.Json.{Json, text, number, obj, arr, field, end, cons, nil, get_field}
use zuul_proxy.Types.{Result, ok}
use zuul_proxy.Config.{AppConfig, local}
use zuul_proxy.Config.Loader.{scan, substitute_env_vars, load_config}
use zuul_proxy.Prelude.Dict.{set}
use zuul_proxy.Config.Loader.{load_config_default}
use zuul_proxy.Main.{Started, started, collect_keys, main}
use zuul_proxy.Main.Ready.{HasHandle, main-HasHandle}
use zuul_proxy.Config.Loader.Loaded.{IsLoaded, load_config_ok_iff}
use zuul_proxy.Config.Schema.{
  parse_items, tool_schema, role_schema, chain_schema, cache_schema, server_schema, validate_config,
  endpoint_schema,
}

abbrev env : String → Option String
env k =
    if k == "KEY"
    then some "secret"
    else if k == "AUDIT_CONTRACT_ADDRESS"
    then some "0xaudit"
    else none

abbrev tool : Json
tool = obj (
    field "key" (text "github") (
      field "description" (text "GitHub")
        (field "baseUrl" (text "https://api.github.com") (field "keyRef" (text "KEY") end))))

abbrev role : Json
role =
    obj (field "id" (text "0x1") (field "name" (text "reader") (field "permissions" (arr nil) end)))

abbrev chain : Json
chain = obj (
    field "name" (text "local") (
      field "chainId" (number (nat 31337)) (
        field "rpcUrl" (text "http://localhost:8545") (
          field "rbacContractAddress" (text "0xrbac")
            (field "auditContractAddress" (text "0xaudit") end)))))

abbrev document : Json
document = obj (
    field "tools" (arr (cons tool nil))
      (field "roles" (arr (cons role nil)) (field "chain" chain end)))

abbrev config : AppConfig
config = record {
  tools =
      record {
        key = "github";
        description = "GitHub";
        base_url = "https://api.github.com";
        key_ref = "KEY";
        endpoints = [];
      }
      ∷ [];
  roles = record { id = "0x1"; name = "reader"; permissions = [] } ∷ [];
  chain = record {
    name = local;
    chain_id = 31337;
    rpc_url = "http://localhost:8545";
    rbac_contract_address = "0xrbac";
    audit_contract_address = "0xaudit";
  };
  cache = record { ttl_seconds = 300 };
  server = record {
    port = 8080;
    host = "0.0.0.0";
    read_timeout_ms = 30000;
    write_timeout_ms = 60000;
  };
}

abbrev is_url : String → Bool
is_url s = true

abbrev issues : Json → String
issues v = "invalid"

abbrev read_file : String → Result String String
read_file path = ok "document"

abbrev parse_yaml : String → Result String Json
parse_yaml content = ok document

load_config_ok_iff_example :
    (load_config env is_url issues read_file parse_yaml "./config.yaml" ≡ ok config)
    ↔ IsLoaded env is_url issues read_file parse_yaml "./config.yaml" config
load_config_ok_iff_example =
    load_config_ok_iff env is_url issues read_file parse_yaml "./config.yaml" config

-- The run itself.
load_config_document :
    load_config env is_url issues read_file parse_yaml "./config.yaml" ≡ ok config
unfolding load_config substitute_env_vars scan get_field parse_items tool_schema role_schema
    chain_schema cache_schema server_schema validate_config endpoint_schema
load_config_document = refl

abbrev started_process : Started
started_process = started env config (("github", "secret") ∷ []) "0xaudit"

main-HasHandle_example :
    IsLoaded env is_url issues read_file parse_yaml "./config.yaml" config
    × All (HasHandle (record { keys = ("github", "secret") ∷ [] })) config.tools
unfolding main load_config_default load_config substitute_env_vars scan get_field parse_items
    tool_schema role_schema chain_schema cache_schema server_schema validate_config endpoint_schema
    collect_keys set
main-HasHandle_example = main-HasHandle env is_url issues read_file parse_yaml started_process refl
