-- ===== src/Rbac/Cache/Reads.antt =====
-- When the permission cache answers, and when it fails closed (src/rbac/cache.ts).
use zuul_proxy.Prelude.{
  ℕ, String, ◌≡◌, ◌∙◌, ap, ◌↔◌, ◌⊎◌, inl, inr, refl, Option, none, some, arith, Option-cases,
}
use zuul_proxy.Prelude.Dict.{get}
use zuul_proxy.Types.{Role, Result, ok, err}
use zuul_proxy.Errors.{ZuulError, service_error, minus}
use zuul_proxy.Rbac.Cache.{
  RoleWithPermissions, convert_to_role_with_permissions, PermissionCache, unavailable,
  read_from_chain_with_retry, live, store, get_role,
}

-- A read of the chain that throws.
abbrev pub Fails : Result String Role → Type 0
Fails (ok role) = ⊥
Fails (err m) = Unit

-- The role that the first successful read gives, among the reads 0, 1 and 2.
abbrev pub FirstAnswer : (ℕ → Result String Role) → Role → Type 0
FirstAnswer outcomes role =
    (outcomes 0 ≡ ok role)
    ⊎ ((Fails (outcomes 0) × (outcomes 1 ≡ ok role))
        ⊎ (Fails (outcomes 0) × Fails (outcomes 1) × (outcomes 2 ≡ ok role)))

-- The reads 0, 1 and 2 all throw.
abbrev pub AllFail : (ℕ → Result String Role) → Type 0
AllFail outcomes = Fails (outcomes 0) × Fails (outcomes 1) × Fails (outcomes 2)

-- The error of a permission lookup that fails closed.
pub record IsUnavailable (e : ZuulError) : Type 0 where
  pub class : e.class ≡ service_error
  pub code : e.code ≡ minus 32022
  pub http_status : e.http_status ≡ 503
  pub error_type : e.error_type ≡ "service/unavailable"

pub read_cases :
    (outcomes : ℕ → Result String Role)
    → ((role : Role) × FirstAnswer outcomes role
        × (read_from_chain_with_retry outcomes ≡ ok (convert_to_role_with_permissions role)))
      ⊎ (AllFail outcomes
          × ((e : ZuulError) × (read_from_chain_with_retry outcomes ≡ err e) × IsUnavailable e))
unfolding read_from_chain_with_retry unavailable
read_cases outcomes = cases (outcomes 0) (outcomes 1) (outcomes 2) refl refl refl
  where
    cases :
        (a b c : Result String Role)
        → outcomes 0 ≡ a
        → outcomes 1 ≡ b
        → outcomes 2 ≡ c
        → ((role : Role) × FirstAnswer outcomes role
            × (read_from_chain_with_retry outcomes ≡ ok (convert_to_role_with_permissions role)))
          ⊎ (AllFail outcomes
              × ((e : ZuulError) × (read_from_chain_with_retry outcomes ≡ err e) × IsUnavailable e))
    cases (ok role) b c p q r = inl (role, inl p, rw p)
    cases (err m) (ok role) c p q r = inl (role, inr (inl (rw p tt, q)), rw (p, q))
    cases (err m) (err n) (ok role) p q r =
        inl (role, inr (inr (rw p tt, rw q tt, r)), rw (p, q, r))
    cases (err m) (err n) (err k) p q r = inr (
      (rw p tt, rw q tt, rw r tt),
      (
        unavailable (some k),
        rw (p, q, r),
        record { class = refl; code = refl; http_status = refl; error_type = refl },
      ),
    )

Fails-err : (r : Result String Role) → Fails r → (m : String) × (r ≡ err m)
Fails-err (ok role) h = absurd h
Fails-err (err m) h = (m, refl)

pub read_of_FirstAnswer :
    (outcomes : ℕ → Result String Role) (role : Role)
    → FirstAnswer outcomes role
    → read_from_chain_with_retry outcomes ≡ ok (convert_to_role_with_permissions role)
unfolding read_from_chain_with_retry
read_of_FirstAnswer outcomes role (inl p) = rw p
read_of_FirstAnswer outcomes role (inr (inl (f, q))) = let (m, p) = Fails-err _ f in rw (p, q)
read_of_FirstAnswer outcomes role (inr (inr (f, g, r))) =
    let (m, p) = Fails-err _ f in let (n, q) = Fails-err _ g in rw (p, q, r)

module _ (now later : ℕ) (outcomes : ℕ → Result String Role) (agent : String)
    (c : PermissionCache) where
  -- A role found in the cache and not expired.
  abbrev pub hit : Option RoleWithPermissions
  hit = live now (get agent c.cache)

  pub get_role-hit :
      (r : RoleWithPermissions) → hit ≡ some r → get_role now later outcomes agent c ≡ (ok r, c)
  unfolding get_role
  get_role-hit r h = ground (arith, h)

  pub get_role_miss :
      hit ≡ none
      → get_role now later outcomes agent c
        ≡ store later agent (read_from_chain_with_retry outcomes) c
  unfolding get_role
  get_role_miss h = ground (arith, h)

  store_result : (r : Result ZuulError RoleWithPermissions) → (store later agent r c).0 ≡ r
  unfolding store
  store_result (ok r) = refl
  store_result (err e) = refl

  pub miss_result :
      hit ≡ none → (get_role now later outcomes agent c).0 ≡ read_from_chain_with_retry outcomes
  miss_result h =
      ap (λ (p : Result ZuulError RoleWithPermissions × PermissionCache). p.0) (get_role_miss h)
      ∙ store_result _

  get_role_miss_err :
      hit ≡ none
      → (e : ZuulError) → read_from_chain_with_retry outcomes ≡ err e
      → (get_role now later outcomes agent c).1 ≡ c
  unfolding store
  get_role_miss_err h e error = rw (get_role_miss h, error)

  -- The cache answers with a role exactly if an entry for the agent has not expired and holds it,
  -- or no entry is live and it is the converted form of the first role that one of three reads of
  -- the chain gives.
  pub get_role_ok_iff :
      (r : RoleWithPermissions)
      → ((get_role now later outcomes agent c).0 ≡ ok r) ↔ (
          (hit ≡ some r)
          ⊎ ((hit ≡ none)
              × ((role : Role) × FirstAnswer outcomes role
                  × (convert_to_role_with_permissions role ≡ r))))
  get_role_ok_iff r = (λ e. only e (Option-cases hit), when)
    where
      only :
          (get_role now later outcomes agent c).0 ≡ ok r
          → (hit ≡ none) ⊎ ((s : RoleWithPermissions) × (hit ≡ some s))
          → (hit ≡ some r)
            ⊎ ((hit ≡ none)
                × ((role : Role) × FirstAnswer outcomes role
                    × (convert_to_role_with_permissions role ≡ r)))
      only e (inr (s, h)) = inl (h ∙ cc (get_role-hit s h, e))
      only e (inl h) = elim (read_cases outcomes) [
        | inl (role, first, answer) ↦ inr (h, (role, first, cc (miss_result h, answer, e)))
        | inr (fail, error) ↦ absurd (cc (miss_result h, error.1, e))
      ]

      when :
          (hit ≡ some r)
            ⊎ ((hit ≡ none)
                × ((role : Role) × FirstAnswer outcomes role
                    × (convert_to_role_with_permissions role ≡ r)))
          → (get_role now later outcomes agent c).0 ≡ ok r
      when (inl h) = cc (get_role-hit r h)
      when (inr (h, (role, first, same))) =
          cc (miss_result h, read_of_FirstAnswer outcomes role first, same)

  -- An error comes only when no entry is live and all three reads of the chain threw; it is the
  -- service error -32022 with HTTP status 503, and the cache is unchanged.
  pub get_role_fails_closed :
      (e : ZuulError)
      → (get_role now later outcomes agent c).0 ≡ err e
      → (hit ≡ none)
        × AllFail outcomes
        × IsUnavailable e
        × ((get_role now later outcomes agent c).1 ≡ c)
  get_role_fails_closed e h = elim (Option-cases hit) [
    | inr (s, found) ↦ absurd (cc (get_role-hit s found))
    | inl none_live ↦ elim (read_cases outcomes) [
      | inl (role, first, answer) ↦ absurd (cc (miss_result none_live, answer))
      | inr (fail, (e', error, closed)) ↦
          let same : e' ≡ e = cc (miss_result none_live, error, h) in
          (none_live, fail, rw (← same) closed, get_role_miss_err none_live e' error)
    ]
  ]
