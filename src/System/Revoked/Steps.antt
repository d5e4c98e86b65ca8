-- ===== src/System/Revoked/Steps.antt =====
-- Every step of the server keeps a revoked agent without an active role, until a transaction sets
-- one (src/rbac/cache.ts, src/api/handlers/admin.ts, contracts/RBAC.sol).
use zuul_proxy.Prelude.{
  ℕ, String, ◌≡◌, ◌≢◌, refl, ◌∙◌, false, ◌&&◌, ◌⊎◌, inl, inr, List, [], ◌∷◌, ◌++◌, some, ◌==◌,
  Bool-cases, eq_iff, arith, All,
}
use zuul_proxy.Types.{Role, Result}
use zuul_proxy.Rbac.Cache.{read_from_chain_with_retry}
use zuul_proxy.Api.Context.{HttpRequest}
use zuul_proxy.Api.Pipeline.{Run, handle}
use zuul_proxy.Api.Admin.Revoke.Served.{after_revoke}
use zuul_proxy.Contracts.Rbac.{RbacContract, zero_role}
use zuul_proxy.Contracts.Rbac.History.{
  Transaction, set_role, revoke, attempt, or_same, role_of, attempt-role_step,
}
use zuul_proxy.System.{
  Lookup, System, Setting, IsRead, ReadsFor, Step, request, look_up, settle, revoked, transact,
  background, IsSilent, IsQuiet, Later, here, next,
}
use zuul_proxy.System.Cache.{handle-IsLookup}
use zuul_proxy.System.Revoked.{
  IsOff, read-IsOff, IsUncached, store-IsUncached, invalidate-IsUncached, get_role-IsUncached,
}

module _ (agent : String) where
  -- A lookup of another agent, or one that has no active role.
  abbrev pub IsHarmless : Lookup → Type 0
  IsHarmless l = (l.agent ≢ agent) ⊎ IsOff l.answer

  All-split :
      (before after : List Lookup) (l : Lookup)
      → All IsHarmless (before ++ l ∷ after)
      → IsHarmless l × All IsHarmless (before ++ after)
  All-split [] after l (h, k) = (h, k)
  All-split (b ∷ before) after l (h, k) =
      let (this, rest) = All-split before after l k in (this, (h, rest))

  -- The agent has no role on the contract, and no active one in the cache or on the way to it.
  pub record IsCut (a : String) (s : System) : Type 0 where
    pub gone : role_of a s.contract ≡ zero_role
    pub uncached : IsUncached agent s.shared.cache
    pub harmless : All IsHarmless s.lookups

attempt_gone :
    (t : Transaction) (a : String) (c : RbacContract)
    → IsSilent a t
    → role_of a c ≡ zero_role
    → role_of a (or_same c (attempt t c)) ≡ zero_role
attempt_gone (set_role sender b role_id) a c silent gone =
    let step = attempt-role_step (set_role sender b role_id) a c in
    let other : (b == a) ≡ false = ground (arith, eq_iff b a) in
    let idle : (sender == c.proxy && false) ≡ false = ground arith in step ∙ rw (other, idle) gone
attempt_gone (revoke sender b) a c silent gone =
    let step = attempt-role_step (revoke sender b) a c in
    elim (Bool-cases (sender == c.proxy && b == a)) [
      | inl its ↦ step ∙ rw (its) refl
      | inr others ↦ step ∙ rw (others) gone
    ]

module _ (g : Setting) (agent a : String) (encoded : g.encode agent ≡ some a) where
  -- What a lookup has from the contract is harmless.
  reads-IsOff :
      (c : RbacContract) (x : String) (outcomes : ℕ → Result String Role)
      → role_of a c ≡ zero_role
      → IsRead g c x outcomes
      → (x ≢ agent) ⊎ IsOff (read_from_chain_with_retry outcomes)
  reads-IsOff c x outcomes gone reads = elim (Bool-cases (x == agent)) [
    | inr other ↦ inl (λ same. absurd (cc (other, (eq_iff x agent).1 same)))
    | inl same ↦
        let its : x ≡ agent = (eq_iff x agent).0 same in
        inr (read-IsOff g c agent a encoded gone outcomes (rw (its) at reads))
  ]

  request-IsUncached :
      (s : System) (run : Run) (req : HttpRequest)
      → ReadsFor g run req s
      → IsCut agent a s
      → IsUncached agent (handle g.server g.platform run req s.shared).shared.cache
  request-IsUncached s run req reads h =
      elim (handle-IsLookup g.server g.platform run req s.shared) [
        | inl same ↦ rw (same) h.uncached
        | inr l ↦
            let off =
              reads-IsOff s.contract l.agent run.outcomes h.gone
                (reads l.context l.agent l.verified l.named) in
            rw (l.left) (
              get_role-IsUncached agent s.shared.cache h.uncached run.now run.later run.outcomes
                l.agent off)
      ]

  Step-IsCut :
      (s : System) {t : System} (st : Step g s t)
      → IsQuiet g a st
      → IsCut agent a s
      → IsCut agent a t
  Step-IsCut s (request run req reads) quiet h = record {
    gone = h.gone;
    uncached = request-IsUncached s run req reads h;
    harmless = h.harmless;
  }
  Step-IsCut s (look_up x outcomes reads) quiet h = record {
    gone = h.gone;
    uncached = h.uncached;
    harmless = (reads-IsOff s.contract x outcomes h.gone reads, h.harmless);
  }
  Step-IsCut s (settle later before after l e) quiet h =
      let (this, rest) = All-split agent before after l (rw (e) at h.harmless) in
      record {
        gone = h.gone;
        uncached = store-IsUncached agent s.shared.cache h.uncached later l.agent l.answer this;
        harmless = rest;
      }
  Step-IsCut s (revoked env viem fallback x tx cache e) quiet h =
      let dropped = after_revoke env viem fallback x tx s.shared.cache cache e in
      record {
        gone = h.gone;
        uncached = rw (← dropped) (invalidate-IsUncached agent s.shared.cache h.uncached x);
        harmless = h.harmless;
      }
  Step-IsCut s (transact t) quiet h = record {
    gone = attempt_gone t a s.contract quiet h.gone;
    uncached = h.uncached;
    harmless = h.harmless;
  }
  Step-IsCut s (background nonces audit) quiet h = record {
    gone = h.gone;
    uncached = h.uncached;
    harmless = h.harmless;
  }

  pub Later-IsCut : {s t : System} → Later g a s t → IsCut agent a s → IsCut agent a t
  Later-IsCut here h = h
  Later-IsCut (next l st quiet) h = Step-IsCut _ st quiet (Later-IsCut l h)
