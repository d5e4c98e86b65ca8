-- ===== src/System/Revoked.antt =====
-- What no step gives back to a revoked agent (src/rbac/cache.ts, src/chain/hedera.ts,
-- contracts/RBAC.sol).
pub mod Steps
pub mod Final
use zuul_proxy.Prelude.{
  ℕ, ◌+◌, ◌*◌, String, ◌≡◌, ◌≢◌, refl, ◌∙◌, sym, false, ◌⊎◌, inl, inr, Option, none, some, ◌==◌,
  Bool-cases, Option-cases, eq_iff, arith, Bool, List,
}
use zuul_proxy.Prelude.Dict.{get, set, delete, get-set, get-delete}
use zuul_proxy.Types.{Role, Result, ok, err, Result-cases}
use zuul_proxy.Errors.{ZuulError}
use zuul_proxy.Chain.Roles.{read_role, role_with, with_flag, find_role}
use zuul_proxy.Chain.Hedera.{HederaChainDriver, get_role_for_agent, role_hash}
use zuul_proxy.Rbac.Cache.{
  RoleWithPermissions, Cached, PermissionCache, convert_to_role_with_permissions, live,
  read_from_chain_with_retry, store, get_role, invalidate,
}
use zuul_proxy.Rbac.Cache.Reads.{
  Fails, FirstAnswer, read_cases, get_role-hit, get_role_miss, miss_result,
}
use zuul_proxy.Contracts.Rbac.{RbacContract, get_agent_role, zero_role}
use zuul_proxy.Contracts.Rbac.History.{role_of}
use zuul_proxy.System.{Setting, read_contract, chain_role, IsRead}

-- Not active, where it is a role.
abbrev pub IsOff : Result ZuulError RoleWithPermissions → Type 0
IsOff (ok role) = role.is_active ≡ false
IsOff (err e) = Unit

role_with_off : (role_id : String) (o : Option Role) → (role_with role_id false o).is_active ≡ false
role_with_off role_id none = refl
role_with_off role_id (some r) = refl

with_flag_off :
    (role_id : String) (found : Result String (Option Role)) (role : Role)
    → with_flag role_id false found ≡ ok role
    → role.is_active ≡ false
with_flag_off role_id (err m) role e = cc
with_flag_off role_id (ok o) role e =
    let same : role_with role_id false o ≡ role = cc in rw (← same) (role_with_off role_id o)

read_role_off :
    (hash : String → Result String String) (read : String → String → Result String (String × Bool))
    (contract agent role_id : String) (roles : List Role) (role : Role)
    → read contract agent ≡ ok (role_id, false)
    → read_role hash read contract roles agent ≡ ok role
    → role.is_active ≡ false
unfolding read_role
read_role_off hash read contract agent role_id roles role answer e =
    elim (Bool-cases (contract == "")) [
      | inl unset ↦ absurd (cc (rw (unset, read_role) at e))
      | inr set ↦
          with_flag_off role_id (find_role hash role_id roles) role
            (rw (set, answer, read_role) at e)
    ]

read_role_fails :
    (hash : String → Result String String) (read : String → String → Result String (String × Bool))
    (contract agent : String) (roles : List Role) (role : Role) (m : String)
    → read contract agent ≡ err m
    → read_role hash read contract roles agent ≡ ok role
    → ⊥
unfolding read_role
read_role_fails hash read contract agent roles role m failed e =
    elim (Bool-cases (contract == "")) [
      | inl unset ↦ cc (rw (unset, read_role) at e)
      | inr set ↦ cc (rw (set, failed, read_role) at e)
    ]

module _ (g : Setting) (c : RbacContract) (agent a : String) (encoded : g.encode agent ≡ some a)
    (gone : role_of a c ≡ zero_role) where
  chain_role_off : (role : Role) → chain_role g c agent ≡ ok role → role.is_active ≡ false
  unfolding chain_role get_role_for_agent read_contract get_agent_role
  chain_role_off role e =
      let contract = g.driver.rbac_contract_address in
      elim (Bool-cases (contract == g.deployed)) [
        | inl there ↦
            read_role_off (role_hash g.keccak g.to_hex_32) (read_contract g c) contract agent
              zero_role g.driver.roles role
              (rw (there, encoded, gone, read_contract, get_agent_role) refl) e
        | inr elsewhere ↦ absurd (
            read_role_fails (role_hash g.keccak g.to_hex_32) (read_contract g c) contract agent
              g.driver.roles role "The contract function returned no data"
              (rw (elsewhere, read_contract) refl) e)
      ]

  module _ (outcomes : ℕ → Result String Role) (reads : IsRead g c agent outcomes) where
    outcome_off : (n : ℕ) (role : Role) → outcomes n ≡ ok role → role.is_active ≡ false
    outcome_off n role e = elim (reads n) [
      | inl same ↦ chain_role_off role (sym same ∙ e)
      | inr fails ↦ absurd (rw (e) at fails)
    ]

    first_off : (role : Role) → FirstAnswer outcomes role → role.is_active ≡ false
    first_off role (inl e) = outcome_off 0 role e
    first_off role (inr (inl (f, e))) = outcome_off 1 role e
    first_off role (inr (inr (f, h, e))) = outcome_off 2 role e

    -- No read gives the agent an active role.
    pub read-IsOff : IsOff (read_from_chain_with_retry outcomes)
    unfolding convert_to_role_with_permissions
    read-IsOff = elim (read_cases outcomes) [
      | inl (role, first, answer) ↦ rw (answer) (first_off role first)
      | inr (fail, (e, error, closed)) ↦ rw (error) tt
    ]

-- The cache has no active role for an agent.
abbrev pub IsUncached : String → PermissionCache → Type 0
IsUncached agent c = (e : Cached) → get agent c.cache ≡ some e → e.role.is_active ≡ false

module _ (agent : String) (c : PermissionCache) (uncached : IsUncached agent c) where
  pub store-IsUncached :
      (later : ℕ) (x : String) (r : Result ZuulError RoleWithPermissions)
      → (x ≢ agent) ⊎ IsOff r
      → IsUncached agent (store later x r c).1
  unfolding store
  store-IsUncached later x (err m) off e found = uncached e found
  store-IsUncached later x (ok role) off e found =
      let entry : Cached = record { role = role; expires_at = later + c.ttl_seconds * 1000 } in
      let there : get agent (set x entry c.cache) ≡ some e = found in
      elim (Bool-cases (x == agent)) [
        | inr other ↦ uncached e (ground (arith, get-set x agent entry c.cache))
        | inl same ↦
            let stored : entry ≡ e = ground (arith, get-set x agent entry c.cache) in
            rw (← stored) (elim off [
              | inl other ↦ absurd (other ((eq_iff x agent).0 same))
              | inr inactive ↦ inactive
            ])
      ]

  pub invalidate-IsUncached : (x : String) → IsUncached agent (invalidate x c)
  unfolding invalidate
  invalidate-IsUncached x e found = uncached e (ground (arith, get-delete x agent c.cache))

  pub get_role-IsUncached :
      (now later : ℕ) (outcomes : ℕ → Result String Role) (x : String)
      → (x ≢ agent) ⊎ IsOff (read_from_chain_with_retry outcomes)
      → IsUncached agent (get_role now later outcomes x c).1
  get_role-IsUncached now later outcomes x off = elim (Option-cases (live now (get x c.cache))) [
    | inr (role, hit) ↦ rw (get_role-hit now later outcomes x c role hit) uncached
    | inl miss ↦
        rw (get_role_miss now later outcomes x c miss)
          (store-IsUncached later x (read_from_chain_with_retry outcomes) off)
  ]

  live_off :
      (now : ℕ) (role : RoleWithPermissions)
      → live now (get agent c.cache) ≡ some role
      → role.is_active ≡ false
  live_off now role hit = elim (Option-cases (get agent c.cache)) [
    | inl missing ↦ absurd (cc (rw (missing) at hit))
    | inr (e, found) ↦
        let same : e.role ≡ role = ground (arith, rw (found) at hit) in
        rw (← same) (uncached e found)
  ]

  -- A lookup gives the agent no active role.
  pub get_role_off :
      (now later : ℕ) (outcomes : ℕ → Result String Role) (role : RoleWithPermissions)
      → IsOff (read_from_chain_with_retry outcomes)
      → (get_role now later outcomes agent c).0 ≡ ok role
      → role.is_active ≡ false
  get_role_off now later outcomes role off e = elim (Option-cases (live now (get agent c.cache))) [
    | inr (held, hit) ↦
        let same : held ≡ role = cc (rw (get_role-hit now later outcomes agent c held hit) at e) in
        rw (← same) (live_off now held hit)
    | inl miss ↦ rw (sym (miss_result now later outcomes agent c miss) ∙ e) at off
  ]
