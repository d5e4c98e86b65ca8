-- ===== src/Api/Admin/Revoke.antt =====
-- The emergency revocation of src/api/handlers/admin.ts. viem is the record `Viem`; `none` is a
-- throw. `fallback` is the chain driver's `writeContract` with a contract address and an agent.
pub mod Effect
pub mod Served
pub mod Simulated
use zuul_proxy.Prelude.{String, Bool, Option, none, some, [], ◌∷◌, eqb, ◌==◌, if◌then◌else◌}
use zuul_proxy.Prelude.Text.{codes, is_hex, matches, times}
use zuul_proxy.Types.{Result, ok, err}
use zuul_proxy.Errors.{ZuulError, new_service_error, minus}
use zuul_proxy.Rbac.Cache.{PermissionCache, invalidate}
use zuul_proxy.Audit.Contract.{Written, returned, thrown}

-- The variables of the process environment that the revocation reads.
pub record Environment : Type 0 where
  pub hardhat_signer_key : Option String
  pub proxy_signer_key : Option String
  pub rbac_contract_address : Option String

-- `private_key_to_account` gives the account; `write_contract` submits `emergencyRevoke` for an
-- account, a contract and an agent, and gives the transaction's hash.
pub record Viem : Type 0 where
  pub private_key_to_account : String → Option String
  pub get_address : String → Option String
  pub write_contract : String → String → String → Option String

-- `s || undefined`: the empty text is falsy.
abbrev pub truthy : Option String → Option String
truthy none = none
truthy (some s) = if s == "" then none else some s

-- `a || b`
abbrev pub or_else : Option String → Option String → Option String
or_else none b = b
or_else (some a) b = some a

unfoldable pub signer_key : Environment → Option String
signer_key env = or_else (truthy env.hardhat_signer_key) (truthy env.proxy_signer_key)

-- `/^0x[0-9a-fA-F]{40}$/`
unfoldable pub is_address : String → Bool
is_address s = matches (eqb b'0' ∷ eqb b'x' ∷ times 40 is_hex []) (codes s)

bad_address : ZuulError
unfolding new_service_error
bad_address =
    new_service_error "Invalid agent address format" (minus 32600) 400 "request/invalid" []

internal : String → ZuulError
unfolding new_service_error
internal message = new_service_error message (minus 32603) 500 "service/internal_error" []

refused : ZuulError
unfolding new_service_error
refused = new_service_error "Revocation failed" (minus 32022) 503 "service/unavailable" []

-- `permissionCache?.invalidate(agent)`
abbrev pub invalidate_in : String → Option PermissionCache → Option PermissionCache
invalidate_in agent none = none
invalidate_in agent (some cache) = some (invalidate agent cache)

abbrev pub revoked :
    String → String → Option PermissionCache → Result ZuulError String × Option PermissionCache
revoked tx agent cache = (ok tx, invalidate_in agent cache)

-- The direct call: both addresses in checksum form, then the transaction.
unfoldable pub direct : Viem → String → String → String → Option String
direct viem account contract agent = elim (viem.get_address contract) [
  | none ↦ none
  | some to ↦ elim (viem.get_address agent) [
    | none ↦ none
    | some checked ↦ viem.write_contract account to checked
  ]
]

-- The fallback, after the direct call threw.
unfoldable pub after_fallback :
    String → Written → Option PermissionCache → Result ZuulError String × Option PermissionCache
unfolding refused internal
after_fallback agent (thrown message) cache =
    (err (internal "Internal error during revocation"), cache)
after_fallback agent (returned (err e)) cache = (err refused, cache)
after_fallback agent (returned (ok tx)) cache = revoked tx agent cache

module _ (env : Environment) (viem : Viem) (fallback : String → String → Written) where
  -- The inner `try`, and its `catch`.
  unfoldable pub submit :
      String
      → String
      → String
      → Option PermissionCache
      → Result ZuulError String × Option PermissionCache
  unfolding direct after_fallback
  submit account contract agent cache = elim (direct viem account contract agent) [
    | some tx ↦ revoked tx agent cache
    | none ↦ after_fallback agent (fallback contract agent) cache
  ]

  -- From the signer's account on.
  unfoldable pub with_account :
      String → String → Option PermissionCache → Result ZuulError String × Option PermissionCache
  unfolding submit internal
  with_account account agent cache = elim (truthy env.rbac_contract_address) [
    | none ↦ (err (internal "RBAC contract address not configured"), cache)
    | some contract ↦ submit account contract agent cache
  ]

  -- `performEmergencyRevoke`, with the cache that it leaves.
  unfoldable pub perform_emergency_revoke :
      String → Option PermissionCache → Result ZuulError String × Option PermissionCache
  unfolding with_account bad_address internal is_address signer_key
  perform_emergency_revoke agent cache =
      if is_address agent
      then (elim (signer_key env) [
        | none ↦ (err (internal "No signer key found"), cache)
        | some key ↦ elim (viem.private_key_to_account key) [
          | none ↦ (err (internal "Internal error during revocation"), cache)
          | some account ↦ with_account account agent cache
        ]
      ])
      else (err bad_address, cache)
