-- ===== src/Api/Admin/Revoke/Effect.antt =====
-- What a revocation does to the permission cache, and to the requests that come after it
-- (src/api/handlers/admin.ts, src/rbac/cache.ts, src/api/middleware/rbac.ts).
use zuul_proxy.Prelude.{
  String, ◌≡◌, refl, true, Option, none, some, arith, Bool-cases, Option-cases, inl, inr, ◌↔◌, ◌⊎◌,
  ◌≤◌,
}
use zuul_proxy.Types.{Result, ok, err}
use zuul_proxy.Errors.{ZuulError}
use zuul_proxy.Audit.Contract.{Written, returned, thrown}
use zuul_proxy.Rbac.Cache.{PermissionCache}
use zuul_proxy.Api.Admin.Revoke.{
  Environment, Viem, truthy, is_address, signer_key, direct, invalidate_in, after_fallback, submit,
  with_account, perform_emergency_revoke,
}

-- The cache after a result: a success drops the entry under the given spelling; an error, which has
-- an HTTP status from 400 on, changes nothing.
abbrev pub IsSettled :
    String → Option PermissionCache → Result ZuulError String → Option PermissionCache → Type 0
IsSettled agent cache (ok tx) after = after ≡ invalidate_in agent cache
IsSettled agent cache (err e) after = (after ≡ cache) × (400 ≤ e.http_status)

-- The ways to succeed: the direct call, or the fallback after the direct call threw.
abbrev pub IsSent : Viem → (String → String → Written) → String → String → String → String → Type 0
IsSent viem fallback account contract agent tx =
    (direct viem account contract agent ≡ some tx)
    ⊎ ((direct viem account contract agent ≡ none) × (fallback contract agent ≡ returned (ok tx)))

module _ (agent : String) (cache : Option PermissionCache) where
  abbrev Settles : Result ZuulError String × Option PermissionCache → Type 0
  Settles r = IsSettled agent cache r.0 r.1

  after_fallback-IsSettled : (w : Written) → Settles (after_fallback agent w cache)
  unfolding after_fallback
  after_fallback-IsSettled (thrown m) = (refl, omega arith)
  after_fallback-IsSettled (returned (err e)) = (refl, omega arith)
  after_fallback-IsSettled (returned (ok tx)) = refl

  module _ (env : Environment) (viem : Viem) (fallback : String → String → Written) where
    submit-IsSettled :
        (account contract : String)
        → Settles (submit env viem fallback account contract agent cache)
    unfolding submit
    submit-IsSettled account contract = elim (Option-cases (direct viem account contract agent)) [
      | inl failed ↦ rw (failed, submit) (after_fallback-IsSettled (fallback contract agent))
      | inr (tx, sent) ↦ rw (sent, submit) refl
    ]

    with_account-IsSettled :
        (account : String) → Settles (with_account env viem fallback account agent cache)
    unfolding with_account
    with_account-IsSettled account = elim (Option-cases (truthy env.rbac_contract_address)) [
      | inl missing ↦ rw (missing, with_account) (refl, omega arith)
      | inr (contract, set) ↦ rw (set, with_account) (submit-IsSettled account contract)
    ]

    -- After an emergency revocation the permission cache is the one before it without the entry
    -- under the given spelling of the agent's address if the revocation succeeded. If it answers
    -- with an error, whichever, the cache is the same as before it, and the error's HTTP status is
    -- at least 400.
    pub perform_emergency_revoke-IsSettled :
        IsSettled agent cache
          (perform_emergency_revoke env viem fallback agent cache).0
          (perform_emergency_revoke env viem fallback agent cache).1
    unfolding perform_emergency_revoke
    perform_emergency_revoke-IsSettled = elim (Bool-cases (is_address agent)) [
      | inr bad ↦ rw (bad, perform_emergency_revoke) (refl, omega arith)
      | inl good ↦ elim (Option-cases (signer_key env)) [
        | inl missing ↦ rw (good, missing, perform_emergency_revoke) (refl, omega arith)
        | inr (key, found) ↦ elim (Option-cases (viem.private_key_to_account key)) [
          | inl broken ↦ rw (good, found, broken, perform_emergency_revoke) (refl, omega arith)
          | inr (account, made) ↦
              rw (good, found, made, perform_emergency_revoke) (with_account-IsSettled account)
        ]
      ]
    ]

    -- What a successful revocation has used.
    pub record IsAllowed (tx : String) : Type 0 where
      pub address : is_address agent ≡ true
      pub key : String
      pub signer : signer_key env ≡ some key
      pub account : String
      pub unlocked : viem.private_key_to_account key ≡ some account
      pub contract : String
      pub configured : truthy env.rbac_contract_address ≡ some contract
      pub sent : IsSent viem fallback account contract agent tx

    after_fallback_ok :
        (w : Written) (tx : String)
        → (after_fallback agent w cache).0 ≡ ok tx
        → w ≡ returned (ok tx)
    unfolding after_fallback
    after_fallback_ok (thrown m) tx e = cc
    after_fallback_ok (returned (err e')) tx e = cc
    after_fallback_ok (returned (ok tx')) tx e = cc

    submit_ok :
        (account contract tx : String)
        → (submit env viem fallback account contract agent cache).0 ≡ ok tx
        → IsSent viem fallback account contract agent tx
    unfolding submit
    submit_ok account contract tx e = elim (Option-cases (direct viem account contract agent)) [
      | inl failed ↦
          inr (failed, after_fallback_ok (fallback contract agent) tx (rw (failed, submit) at e))
      | inr (tx', sent) ↦ inl (cc (sent, rw (sent, submit) at e))
    ]

    submit_ok_of :
        (account contract tx : String)
        → IsSent viem fallback account contract agent tx
        → (submit env viem fallback account contract agent cache).0 ≡ ok tx
    unfolding submit after_fallback
    submit_ok_of account contract tx (inl sent) = rw (sent, submit) refl
    submit_ok_of account contract tx (inr (failed, sent)) =
        rw (failed, sent, submit, after_fallback) refl

    allowed :
        (tx key account contract : String)
        → is_address agent ≡ true
        → signer_key env ≡ some key
        → viem.private_key_to_account key ≡ some account
        → truthy env.rbac_contract_address ≡ some contract
        → (submit env viem fallback account contract agent cache).0 ≡ ok tx
        → IsAllowed tx
    allowed tx key account contract address signer unlocked configured e = record {
      address = address;
      key = key;
      signer = signer;
      account = account;
      unlocked = unlocked;
      contract = contract;
      configured = configured;
      sent = submit_ok account contract tx e;
    }

    perform_emergency_revoke_ok :
        (tx : String)
        → (perform_emergency_revoke env viem fallback agent cache).0 ≡ ok tx
        → IsAllowed tx
    unfolding perform_emergency_revoke with_account
    perform_emergency_revoke_ok tx e = elim (Bool-cases (is_address agent)) [
      | inr bad ↦ absurd (cc (rw (bad, perform_emergency_revoke) at e))
      | inl good ↦ elim (Option-cases (signer_key env)) [
        | inl missing ↦ absurd (cc (rw (good, missing, perform_emergency_revoke) at e))
        | inr (key, found) ↦ elim (Option-cases (viem.private_key_to_account key)) [
          | inl broken ↦ absurd (cc (rw (good, found, broken, perform_emergency_revoke) at e))
          | inr (account, made) ↦ elim (Option-cases (truthy env.rbac_contract_address)) [
            | inl unset ↦
                absurd
                  (cc (rw (good, found, made, unset, perform_emergency_revoke, with_account) at e))
            | inr (contract, set) ↦
                allowed tx key account contract good found made set
                  (rw (good, found, made, set, perform_emergency_revoke, with_account) at e)
          ]
        ]
      ]
    ]

    -- An emergency revocation succeeds with a transaction exactly if the address has the format of
    -- an address, a signer key and the contract's address are set, the key gives an account, and
    -- the transaction comes from the direct call, or from the chain driver after the direct call
    -- threw.
    pub perform_emergency_revoke_ok_iff :
        (tx : String)
        → ((perform_emergency_revoke env viem fallback agent cache).0 ≡ ok tx) ↔ IsAllowed tx
    unfolding perform_emergency_revoke with_account
    perform_emergency_revoke_ok_iff tx = (
      perform_emergency_revoke_ok tx,
      λ a.
          rw (a.address, a.signer, a.unlocked, a.configured, perform_emergency_revoke, with_account)
            (submit_ok_of a.account a.contract tx a.sent),
    )
