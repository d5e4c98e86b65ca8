-- ===== src/Api/Admin/Revoke/Simulated.antt =====
-- A revocation over the driver for EVM chains (src/api/handlers/admin.ts, src/chain/evm.ts).
use zuul_proxy.Prelude.{String, ◌≡◌, refl, ◌↔◌, true, Option, some, inl, inr, Option-cases}
use zuul_proxy.Prelude.Text.{concat}
use zuul_proxy.Types.{ok}
use zuul_proxy.Audit.Contract.{Written, returned}
use zuul_proxy.Chain.Evm.{EvmChainDriver, pad_start, write_contract}
use zuul_proxy.Rbac.Cache.{PermissionCache}
use zuul_proxy.Api.Admin.Revoke.{
  Environment, Viem, truthy, is_address, signer_key, direct, perform_emergency_revoke,
}
use zuul_proxy.Api.Admin.Revoke.Effect.{perform_emergency_revoke_ok_iff}

-- The driver's `writeContract` as the fallback.
unfoldable pub evm_fallback : EvmChainDriver → String → String → String → Written
unfolding write_contract
evm_fallback d fraction contract agent =
    returned (write_contract d fraction contract "emergencyRevoke")

-- The address has its format, a signer key gives an account, and the contract's address is set.
pub record IsConfigured (env : Environment) (viem : Viem) (agent : String) : Type 0 where
  pub address : is_address agent ≡ true
  pub key : String
  pub signer : signer_key env ≡ some key
  pub account : String
  pub unlocked : viem.private_key_to_account key ≡ some account
  pub contract : String
  pub configured : truthy env.rbac_contract_address ≡ some contract

module _ (env : Environment) (viem : Viem) (d : EvmChainDriver) (fraction agent : String)
    (cache : Option PermissionCache) where
  -- On a chain with the driver for Base, Arbitrum and Optimism, an emergency revocation answers
  -- with success exactly if the address has its format, a signer key gives an account, and the
  -- contract's address is set: whatever the node does with the transaction, also where it takes
  -- none.
  pub perform_emergency_revoke_simulated_iff :
      ((tx : String) × ((perform_emergency_revoke env viem (evm_fallback d fraction) agent cache).0
          ≡ ok tx))
      ↔ IsConfigured env viem agent
  unfolding evm_fallback write_contract
  perform_emergency_revoke_simulated_iff =
      let succeeds =
        perform_emergency_revoke_ok_iff agent cache env viem (evm_fallback d fraction) in
      (
        λ (tx, e).
            let h = (succeeds tx).0 e in
            record {
              address = h.address;
              key = h.key;
              signer = h.signer;
              account = h.account;
              unlocked = h.unlocked;
              contract = h.contract;
              configured = h.configured;
            },
        λ h. elim (Option-cases (direct viem h.account h.contract agent)) [
          | inl failed ↦
              let tx = concat "0x" (pad_start 64 fraction) in
              (
                tx,
                (succeeds tx).1 (record {
                  address = h.address;
                  key = h.key;
                  signer = h.signer;
                  account = h.account;
                  unlocked = h.unlocked;
                  contract = h.contract;
                  configured = h.configured;
                  sent = inr (failed, refl);
                }),
              )
          | inr (tx, sent) ↦ (
            tx,
            (succeeds tx).1 (record {
              address = h.address;
              key = h.key;
              signer = h.signer;
              account = h.account;
              unlocked = h.unlocked;
              contract = h.contract;
              configured = h.configured;
              sent = inl sent;
            }),
          )
        ],
      )
