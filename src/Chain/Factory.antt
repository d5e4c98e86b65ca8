-- ===== src/Chain/Factory.antt =====
-- src/chain/factory.ts: the driver that the configuration names. The environment is what the
-- constructors read of it.
use zuul_proxy.Prelude.{String, some}
use zuul_proxy.Config.{ChainName, hedera, base, arbitrum, optimism, local, AppConfig}
use zuul_proxy.Chain.Evm.{EvmChainDriver, new_evm_chain_driver}
use zuul_proxy.Chain.Hedera.{HederaChainDriver, HederaEnvironment, new_hedera_chain_driver}
use zuul_proxy.Chain.Local.{LocalChainDriver, new_local_chain_driver}

-- The three implementations of `ChainDriver`.
pub data ChainDriver : Type 0 where
  on_local : LocalChainDriver → ChainDriver
  on_hedera : HederaChainDriver → ChainDriver
  on_evm : EvmChainDriver → ChainDriver

-- The text of a chain's name.
abbrev pub chain_text : ChainName → String
chain_text hedera = "hedera"
chain_text base = "base"
chain_text arbitrum = "arbitrum"
chain_text optimism = "optimism"
chain_text local = "local"

module _ (env : HederaEnvironment) (config : AppConfig) where
  abbrev on_evm_chain : ChainName → ChainDriver
  on_evm_chain name = on_evm (
      new_evm_chain_driver (chain_text name) config.chain.rpc_url config.chain.chain_id
        (some config.roles) env.rbac_contract_address)

  abbrev driver_of : ChainName → ChainDriver
  driver_of local = on_local new_local_chain_driver
  driver_of hedera =
      on_hedera (new_hedera_chain_driver env (some config.chain.rpc_url) (some config.roles))
  driver_of base = on_evm_chain base
  driver_of arbitrum = on_evm_chain arbitrum
  driver_of optimism = on_evm_chain optimism

  unfoldable pub create_chain_driver : ChainDriver
  unfolding new_evm_chain_driver new_hedera_chain_driver new_local_chain_driver
  create_chain_driver = driver_of config.chain.name
