-- ===== src/Config.antt =====
-- src/config/types.ts: the application's configuration.
pub mod Schema
pub mod Loader
use zuul_proxy.Prelude.{ℕ, String, List}
use zuul_proxy.Types.{HttpMethod, PermissionAction}

pub record EndpointConfig : Type 0 where
  pub path : String
  pub methods : List HttpMethod
  pub description : String

pub record ToolConfig : Type 0 where
  pub key : String
  pub description : String
  pub base_url : String
  pub key_ref : String
  pub endpoints : List EndpointConfig

pub record PermissionConfig : Type 0 where
  pub tool : String
  pub actions : List PermissionAction

pub record RoleConfig : Type 0 where
  pub id : String
  pub name : String
  pub permissions : List PermissionConfig

pub data ChainName : Type 0 where
  hedera base arbitrum optimism local : ChainName

pub record ChainConfig : Type 0 where
  pub name : ChainName
  pub chain_id : ℕ
  pub rpc_url : String
  pub rbac_contract_address : String
  pub audit_contract_address : String

pub record CacheConfig : Type 0 where
  pub ttl_seconds : ℕ

pub record ServerConfig : Type 0 where
  pub port : ℕ
  pub host : String
  pub read_timeout_ms : ℕ
  pub write_timeout_ms : ℕ

pub record AppConfig : Type 0 where
  pub tools : List ToolConfig
  pub roles : List RoleConfig
  pub chain : ChainConfig
  pub cache : CacheConfig
  pub server : ServerConfig
