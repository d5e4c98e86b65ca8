-- ===== src/Main.antt =====
-- src/index.ts: the start of the process. `env` is `process.env`, and an `err` is the message of
-- the error with which it exits. The server itself is started with what is built here.
pub mod Ready
use zuul_proxy.Prelude.{String, Bool, List, [], ◌∷◌, Option, none, some, ◌==◌, if◌then◌else◌}
use zuul_proxy.Prelude.Dict.{Dict, set}
use zuul_proxy.Prelude.Text.{concat}
use zuul_proxy.Prelude.Json.{Json}
use zuul_proxy.Types.{Result, ok, err}
use zuul_proxy.Config.{ToolConfig, AppConfig}
use zuul_proxy.Config.Loader.{load_config_default}
use zuul_proxy.Chain.Hedera.{HederaEnvironment}
use zuul_proxy.Chain.Factory.{ChainDriver, create_chain_driver}
use zuul_proxy.Custody.{KeyVault}
use zuul_proxy.Audit.Queue.{World, new_audit_queue}
use zuul_proxy.Proxy.Executor.{Timeouts}

-- `!s`, with the text otherwise.
abbrev pub present : Option String → Option String
present none = none
present (some s) = if s == "" then none else some s

abbrev pub missing_variable : String → String
missing_variable var_name = concat "Missing environment variable: " var_name

-- What the server is started with.
pub record Started : Type 0 where
  pub config : AppConfig
  pub driver : ChainDriver
  pub custody : KeyVault
  pub audit_contract_address : String
  pub audit_queue : World
  pub timeouts : Timeouts

module _ (env : String → Option String) where
  -- The loop over the tools.
  unfoldable pub collect_keys : List ToolConfig → Dict String → Result String (Dict String)
  collect_keys [] keys = ok keys
  collect_keys (t ∷ ts) keys = elim (present (env t.key_ref)) [
    | none ↦ err (missing_variable t.key_ref)
    | some key ↦ collect_keys ts (set t.key key keys)
  ]

  -- What the constructor of the Hedera driver reads.
  abbrev pub hedera_environment : HederaEnvironment
  hedera_environment = record {
    hardhat_signer_key = env "HARDHAT_SIGNER_KEY";
    proxy_signer_key = env "PROXY_SIGNER_KEY";
    hedera_rpc_url = env "HEDERA_RPC_URL";
    rbac_contract_address = env "RBAC_CONTRACT_ADDRESS";
  }

  abbrev pub started : AppConfig → Dict String → String → Started
  started config keys audit_address = record {
    config = config;
    driver = create_chain_driver hedera_environment config;
    custody = record { keys = keys };
    audit_contract_address = audit_address;
    audit_queue = new_audit_queue;
    timeouts = record {
      read_timeout_ms = config.server.read_timeout_ms;
      write_timeout_ms = config.server.write_timeout_ms;
    };
  }

  abbrev with_keys : AppConfig → Dict String → Result String Started
  with_keys config keys = elim (present (env "AUDIT_CONTRACT_ADDRESS")) [
    | none ↦ err (missing_variable "AUDIT_CONTRACT_ADDRESS")
    | some address ↦ ok (started config keys address)
  ]

  abbrev with_config : AppConfig → Result String Started
  with_config config = elim (collect_keys config.tools []) [
    | err message ↦ err message
    | ok keys ↦ with_keys config keys
  ]

  -- `main`, up to the start of the server.
  unfoldable pub main :
      (String → Bool)
      → (Json → String)
      → (String → Result String String)
      → (String → Result String Json)
      → Result String Started
  unfolding load_config_default collect_keys create_chain_driver new_audit_queue
  main is_url issues read_file parse_yaml =
      elim (load_config_default env is_url issues read_file parse_yaml) [
        | err message ↦ err message
        | ok config ↦ with_config config
      ]
