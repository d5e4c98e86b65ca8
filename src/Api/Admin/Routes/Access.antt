-- ===== src/Api/Admin/Routes/Access.antt =====
-- What a request to the admin route for revocations does (src/api/server.ts,
-- src/api/handlers/admin.ts).
use zuul_proxy.Prelude.{
  ℕ, ◌≤◌, String, ◌≡◌, refl, ◌⊎◌, inl, inr, true, Option, some, Bool-cases, Option-cases, arith,
}
use zuul_proxy.Prelude.Json.{Json, null, bool, number, fraction, text, arr, obj}
use zuul_proxy.Types.{Result, ok, err}
use zuul_proxy.Errors.{ZuulError}
use zuul_proxy.Rbac.Cache.{PermissionCache}
use zuul_proxy.Audit.Contract.{Written}
use zuul_proxy.Api.Admin.Revoke.{Environment, Viem, perform_emergency_revoke, invalidate_in}
use zuul_proxy.Api.Admin.Revoke.Effect.{
  IsSettled, IsAllowed, perform_emergency_revoke-IsSettled, perform_emergency_revoke_ok_iff,
}
use zuul_proxy.Api.Admin.Routes.{
  AdminReply, http_status, on_error, localhost_only, agent_address, revoke_reply, revoke_value,
  with_body, revoke_route,
}

module _ (request_id : String) (reply_s : ℕ) (env : Environment) (viem : Viem)
    (fallback : String → String → Written) (cache : Option PermissionCache) where
  -- A revocation with its transaction, and the entry of the cache dropped.
  pub record IsRevoked (value : Json) (r : AdminReply × Option PermissionCache) : Type 0 where
    pub agent : String
    pub tx : String
    pub given : value ≡ text agent
    pub allowed : IsAllowed agent cache env viem fallback tx
    pub status : r.0.status ≡ 200
    pub dropped : r.1 ≡ invalidate_in agent cache

  -- An error, and the cache as before.
  abbrev pub IsRefused : AdminReply × Option PermissionCache → Type 0
  IsRefused r = (400 ≤ r.0.status) × (r.1 ≡ cache)

  status_400 : (e : ZuulError) → 400 ≤ e.http_status → 400 ≤ http_status e
  status_400 e h = ground (arith, h)

  text_cases :
      (agent : String) (r : Result ZuulError String × Option PermissionCache)
      → perform_emergency_revoke env viem fallback agent cache ≡ r
      → IsRevoked (text agent) (revoke_reply request_id reply_s env viem fallback (text agent) r)
        ⊎ IsRefused (revoke_reply request_id reply_s env viem fallback (text agent) r)
  text_cases agent (ok tx, after) e =
      let settles = perform_emergency_revoke-IsSettled agent cache env viem fallback in
      inl (record {
        agent = agent;
        tx = tx;
        given = refl;
        allowed =
            (perform_emergency_revoke_ok_iff agent cache env viem fallback tx).0 (rw (e) refl);
        status = refl;
        dropped = rw (e) at settles;
      })
  text_cases agent (err x, after) e =
      let settles = perform_emergency_revoke-IsSettled agent cache env viem fallback in
      let (same, high) : IsSettled agent cache (err x) after = rw (e) at settles in
      inr (status_400 x high, same)

  value_cases :
      (v : Json)
      → IsRevoked v (revoke_value request_id reply_s env viem fallback v cache)
        ⊎ IsRefused (revoke_value request_id reply_s env viem fallback v cache)
  unfolding revoke_value
  value_cases (text agent) =
      text_cases agent (perform_emergency_revoke env viem fallback agent cache) refl
  value_cases null = inr (omega arith, refl)
  value_cases (bool b) = inr (omega arith, refl)
  value_cases (number n) = inr (omega arith, refl)
  value_cases (fraction s) = inr (omega arith, refl)
  value_cases (arr l) = inr (omega arith, refl)
  value_cases (obj fs) = inr (omega arith, refl)

  -- A revocation that the request's body names.
  abbrev pub IsNamed : Json → AdminReply × Option PermissionCache → Type 0
  IsNamed body r = (v : Json) × (agent_address body ≡ some v) × IsRevoked v r

  body_cases :
      (body : Json)
      → IsNamed body (with_body request_id reply_s env viem fallback body cache)
        ⊎ IsRefused (with_body request_id reply_s env viem fallback body cache)
  unfolding with_body on_error agent_address
  body_cases null = inr (omega arith, refl)
  body_cases (obj fs) = elim (Option-cases (agent_address (obj fs))) [
    | inl missing ↦ rw (missing, with_body) (inr (omega arith, refl))
    | inr (v, found) ↦ elim (value_cases v) [
      | inl done ↦ inl (v, found, rw (found, with_body) done)
      | inr failed ↦ inr (rw (found, with_body) failed)
    ]
  ]
  body_cases (text s) = inr (omega arith, refl)
  body_cases (bool b) = inr (omega arith, refl)
  body_cases (number n) = inr (omega arith, refl)
  body_cases (fraction s) = inr (omega arith, refl)
  body_cases (arr l) = inr (omega arith, refl)

  -- The admin route for revocations answers a request in one of two ways. Either the Host header
  -- names a local address, the body is a JSON object whose `agent_address` is a text, the
  -- revocation of it is allowed and gave a transaction, the status is 200, and the cache is the one
  -- before without the entry of that text; or the status is at least 400 and the cache is the same
  -- as before.
  pub revoke_route_cases :
      (host : Option String) (body : Option Json)
      → ((localhost_only host ≡ true)
          × ((v : Json) × (body ≡ some v)
              × IsNamed v (revoke_route request_id reply_s env viem fallback host body cache)))
        ⊎ IsRefused (revoke_route request_id reply_s env viem fallback host body cache)
  unfolding revoke_route on_error
  revoke_route_cases host body = elim (Bool-cases (localhost_only host)) [
    | inr remote ↦ inr (rw (remote, revoke_route) (omega arith, refl))
    | inl near ↦ elim (Option-cases body) [
      | inl broken ↦ inr (rw (near, broken, revoke_route) (omega arith, refl))
      | inr (v, read) ↦ elim (body_cases v) [
        | inl done ↦ inl (near, (v, read, rw (near, read, revoke_route) done))
        | inr failed ↦ inr (rw (near, read, revoke_route) failed)
      ]
    ]
  ]
