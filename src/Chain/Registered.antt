-- ===== src/Chain/Registered.antt =====
-- What a role that a driver reads can grant (src/chain/evm.ts, src/chain/hedera.ts,
-- src/rbac/cache.ts).
use zuul_proxy.Prelude.{
  String, ◌≡◌, refl, ◌∙◌, sym, ap, Bool, true, false, List, [], ◌∷◌, ◌++◌, Option, none, some, All,
  Bool-cases, inl, inr, ◌==◌,
}
use zuul_proxy.Prelude.Dict.{get}
use zuul_proxy.Types.{PermissionAction, Role, Result, ok, Result-cases}
use zuul_proxy.Rbac.Cache.{convert_to_role_with_permissions}
use zuul_proxy.Rbac.Cache.Grants.{grants, last_actions, grants-convert, grants_none}
use zuul_proxy.Chain.Roles.{same_hash, find_role, read_role, role_with, with_flag}
use zuul_proxy.Chain.Evm
use zuul_proxy.Chain.Hedera
use zuul_proxy.Chain.Evm.{EvmChainDriver}
use zuul_proxy.Chain.Hedera.{HederaChainDriver}

module _ (hash : String → Result String String) (role_id : String) where
  -- A configured role whose id has the chain's hash, or another hash.
  abbrev pub HasHash : Bool → Role → Type 0
  HasHash same r = (h : String) × (hash r.id ≡ ok h) × (same_hash h role_id ≡ same)

  -- The first configured role whose id has the chain's hash.
  pub record IsFirst (roles : List Role) (r : Role) : Type 0 where
    pub before : List Role
    pub after : List Role
    pub split : roles ≡ before ++ r ∷ after
    pub others : All (HasHash false) before
    pub found : HasHash true r

  abbrev IsFind : List Role → Option Role → Type 0
  IsFind roles none = All (HasHash false) roles
  IsFind roles (some r) = IsFirst roles r

  IsFind-cons :
      (r : Role) (roles : List Role) (o : Option Role)
      → HasHash false r
      → IsFind roles o
      → IsFind (r ∷ roles) o
  IsFind-cons r roles none h rest = (h, rest)
  IsFind-cons r roles (some s) h rest = record {
    before = r ∷ rest.before;
    after = rest.after;
    split = ap (◌∷◌ r) rest.split;
    others = (h, rest.others);
    found = rest.found;
  }

  find_role-IsFind :
      (roles : List Role) (o : Option Role) → find_role hash role_id roles ≡ ok o → IsFind roles o
  unfolding find_role
  find_role-IsFind [] none e = tt
  find_role-IsFind [] (some r) e = cc
  find_role-IsFind (r ∷ roles) o e = elim (Result-cases (hash r.id)) [
    | inr (m, failed) ↦ absurd (cc (rw (failed, find_role) at e))
    | inl (h, hashed) ↦ elim (Bool-cases (same_hash h role_id)) [
      | inl same ↦
          let first : IsFirst (r ∷ roles) r = record {
            before = [];
            after = roles;
            split = refl;
            others = tt;
            found = (h, hashed, same);
          } in
          let this : some r ≡ o = cc (rw (hashed, same, find_role) at e) in rw (← this) first
      | inr other ↦
          IsFind-cons r roles o (h, hashed, other)
            (find_role-IsFind roles o (rw (hashed, other, find_role) at e))
    ]
  ]

  -- A role that grants something has its permissions from the first configured role with the hash.
  abbrev pub IsRegistered : List Role → Bool → Role → String → PermissionAction → Type 0
  IsRegistered roles active role tool a =
      (role.is_active ≡ active)
      × ((r : Role) × IsFirst roles r × (grants (last_actions tool r.permissions) a ≡ true))

  with_flag-IsRegistered :
      (roles : List Role) (active : Bool) (role : Role) (tool : String) (a : PermissionAction)
      → with_flag role_id active (find_role hash role_id roles) ≡ ok role
      → grants (get tool (convert_to_role_with_permissions role).permissions) a ≡ true
      → IsRegistered roles active role tool a
  with_flag-IsRegistered roles active role tool a e g =
      elim (Result-cases (find_role hash role_id roles)) [
        | inr (m, failed) ↦ absurd (cc (rw (failed) at e))
        | inl (o, found) ↦ registered o (find_role-IsFind roles o found) (cc (rw (found) at e))
      ]
    where
      registered :
          (o : Option Role)
          → IsFind roles o
          → role_with role_id active o ≡ role
          → IsRegistered roles active role tool a
      registered none h same =
          let listed : grants (last_actions tool role.permissions) a ≡ true =
            sym (grants-convert role tool a) ∙ g in
          absurd (cc (grants_none tool a))
      registered (some r) h same =
          let listed : grants (last_actions tool role.permissions) a ≡ true =
            sym (grants-convert role tool a) ∙ g in
          (rw (← same) refl, (r, h, rw (← same) at listed))

-- Where the grant of a role comes from: the contract's answer for the agent, and the first
-- configured role whose id has the hash of that answer.
pub record IsBacked (hash : String → Result String String)
    (read : String → String → Result String (String × Bool)) (contract : String) (roles : List Role)
    (agent : String) (role : Role) (tool : String) (a : PermissionAction) : Type 0 where
  pub role_id : String
  pub active : Bool
  pub configured : (contract == "") ≡ false
  pub answer : read contract agent ≡ ok (role_id, active)
  pub registered : IsRegistered hash role_id roles active role tool a

read_role-IsBacked :
    (hash : String → Result String String) (read : String → String → Result String (String × Bool))
    (contract : String) (roles : List Role) (agent : String) (role : Role) (tool : String)
    (a : PermissionAction)
    → read_role hash read contract roles agent ≡ ok role
    → grants (get tool (convert_to_role_with_permissions role).permissions) a ≡ true
    → IsBacked hash read contract roles agent role tool a
unfolding read_role
read_role-IsBacked hash read contract roles agent role tool a e g =
    elim (Bool-cases (contract == "")) [
      | inl unset ↦ absurd (cc (rw (unset, read_role) at e))
      | inr set ↦ elim (Result-cases (read contract agent)) [
        | inr (m, failed) ↦ absurd (cc (rw (set, failed, read_role) at e))
        | inl ((role_id, active), answer) ↦ record {
          role_id = role_id;
          active = active;
          configured = set;
          answer = answer;
          registered =
              with_flag-IsRegistered hash role_id roles active role tool a
                (rw (set, answer, read_role) at e) g;
        }
      ]
    ]

module _ (keccak : String → String) (read : String → String → Result String (String × Bool))
    (agent : String) (role : Role) (tool : String) (a : PermissionAction) where
  -- If the role that the driver for EVM chains reads for an agent grants an action on a tool in its
  -- cached form, then the contract answered for the agent with a role id and a flag; the role is
  -- active exactly if the flag is set, and the last permission for the tool of the first configured
  -- role whose id, as bytes, has the chain's hash lists the action.
  pub evm_grants :
      (utf8_hex : String → String) (d : EvmChainDriver)
      → Evm.get_role_for_agent keccak utf8_hex read d agent ≡ ok role
      → grants (get tool (convert_to_role_with_permissions role).permissions) a ≡ true
      → IsBacked
          (Evm.role_hash keccak utf8_hex)
          read
          d.rbac_contract_address
          d.roles
          agent
          role
          tool
          a
  unfolding Evm.get_role_for_agent
  evm_grants utf8_hex d e g =
      read_role-IsBacked (Evm.role_hash keccak utf8_hex) read d.rbac_contract_address d.roles agent
        role tool a e g

  -- If the role that the driver for Hedera reads for an agent grants an action on a tool in its
  -- cached form, then the contract answered for the agent with a role id and a flag; the role is
  -- active exactly if the flag is set, and the last permission for the tool of the first configured
  -- role whose id, padded to 32 bytes, has the chain's hash lists the action.
  pub hedera_grants :
      (to_hex_32 : String → Result String String) (d : HederaChainDriver)
      → Hedera.get_role_for_agent keccak to_hex_32 read d agent ≡ ok role
      → grants (get tool (convert_to_role_with_permissions role).permissions) a ≡ true
      → IsBacked
          (Hedera.role_hash keccak to_hex_32)
          read
          d.rbac_contract_address
          d.roles
          agent
          role
          tool
          a
  unfolding Hedera.get_role_for_agent
  hedera_grants to_hex_32 d e g =
      read_role-IsBacked (Hedera.role_hash keccak to_hex_32) read d.rbac_contract_address d.roles
        agent role tool a e g
