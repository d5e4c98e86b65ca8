-- ===== src/Logging.antt =====
-- src/logging.ts: what a logger is made with, and what it hides. An object that is logged is its
-- fields; pino applies a serializer to the field of its name. `std_err` is pino's own serializer of
-- errors.
use zuul_proxy.Prelude.{
  ℕ, String, Bool, true, false, ◌||◌, ◌≡◌, ◌⊎◌, [], ◌∷◌, Option, none, some, ◌==◌, if◌then◌else◌,
}
use zuul_proxy.Prelude.Dict.{Dict}
use zuul_proxy.Prelude.Json.{Json, text}

-- The serializers that redact.
unfoldable pub is_secret : String → Bool
is_secret name =
    name == "apiKey"
    || (name == "apiKeyHandle"
        || (name == "encryptedPayload"
            || (name == "signature"
                || (name == "agentSignature"
                    || (name == "proxySignature"
                        || (name == "privateKey" || name == "encryptionKey"))))))

pub data Transport : Type 0 where
  file pretty : Transport

pub record LoggerOptions : Type 0 where
  pub level : String
  pub transport : Transport
  pub module_name : String

-- `process.env.LOG_LEVEL || 'info'`
abbrev level_or_info : Option String → String
level_or_info none = "info"
level_or_info (some s) = if s == "" then "info" else s

-- `process.env.NODE_ENV === 'production'`
abbrev is_production : Option String → Bool
is_production none = false
is_production (some s) = s == "production"

-- `createLogger` without options of the caller, for the variables LOG_LEVEL and NODE_ENV.
unfoldable pub create_logger : Option String → Option String → String → LoggerOptions
create_logger log_level node_env module_name = record {
  level = level_or_info log_level;
  transport = if is_production node_env then file else pretty;
  module_name = module_name;
}

module _ (std_err : Json → Json) where
  -- The serializer of a field.
  unfoldable pub serialize : String → Json → Json
  unfolding is_secret
  serialize name v =
      if is_secret name then text "[REDACTED]" else if name == "error" then std_err v else v

  unfoldable pub log_object : Dict Json → Dict Json
  unfolding serialize
  log_object [] = []
  log_object ((name, v) ∷ fields) = (name, serialize name v) ∷ log_object fields

  -- The same names in the same order, and the same values but for the secrets.
  abbrev pub Agrees : Dict Json → Dict Json → Type 0
  Agrees [] [] = Unit
  Agrees [] (field ∷ fields) = ⊥
  Agrees (field ∷ fields) [] = ⊥
  Agrees ((a, v) ∷ fields) ((b, w) ∷ others) =
      (a ≡ b) × ((is_secret a ≡ true) ⊎ (v ≡ w)) × Agrees fields others

-- `LogContext`
pub record LogContext : Type 0 where
  pub request_id : Option String
  pub agent_address : Option String
  pub tool : Option String
  pub action : Option String
  pub latency_ms : Option ℕ
  pub audit_tx : Option String
  pub chain_id : Option ℕ
  pub error_type : Option String

-- `createLogContext`: each field that is there is copied.
unfoldable pub create_log_context : LogContext → LogContext
create_log_context metadata = record {
  request_id = metadata.request_id;
  agent_address = metadata.agent_address;
  tool = metadata.tool;
  action = metadata.action;
  latency_ms = metadata.latency_ms;
  audit_tx = metadata.audit_tx;
  chain_id = metadata.chain_id;
  error_type = metadata.error_type;
}
