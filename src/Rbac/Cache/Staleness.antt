-- ===== src/Rbac/Cache/Staleness.antt =====
-- How old a cached role can be (src/rbac/cache.ts). The lookup of `get` and its store are two
-- steps, since the source awaits the chain between them: other calls may come in between.
use zuul_proxy.Prelude.{
  ℕ, ◌+◌, ◌*◌, ◌<◌, String, ◌≡◌, inl, inr, refl, List, [], ◌∷◌, none, some, arith, Any, Any-map,
  ◌∙◌, eq_iff, ◌==◌, Bool-cases, Option-cases,
}
use zuul_proxy.Prelude.Dict.{get, set, get-set, get-delete}
use zuul_proxy.Types.{ok, err}
use zuul_proxy.Errors.{ZuulError}
use zuul_proxy.Rbac.Cache.{
  RoleWithPermissions, Cached, PermissionCache, live, store, invalidate, clear,
}

-- A role of an agent that a call of `get` had from the chain and stored at a time.
pub record Read : Type 0 where
  pub at : ℕ
  pub agent : String
  pub role : RoleWithPermissions

-- What changes the cache, with a log of the reads that were stored. A failed read changes nothing.
pub data Step : PermissionCache → List Read → PermissionCache → List Read → Type 0 where
  settle :
      (r : Read) (c : PermissionCache) (log : List Read)
      → Step c log (store r.at r.agent (ok r.role) c).1 (r ∷ log)
  fail :
      (at : ℕ) (agent : String) (e : ZuulError) (c : PermissionCache) (log : List Read)
      → Step c log (store at agent (err e) c).1 log
  drop :
      (agent : String) (c : PermissionCache) (log : List Read) → Step c log (invalidate agent c) log
  flush : (c : PermissionCache) (log : List Read) → Step c log (clear c) log

pub data Reach (c : PermissionCache) (log : List Read) : PermissionCache → List Read → Type 0 where
  here : Reach c log c log
  next :
      {d d' : PermissionCache} {l l' : List Read}
      → Reach c log d l
      → Step d l d' l'
      → Reach c log d' l'

module _ (agent : String) (ttl : ℕ) where
  -- A read of the agent that gave the cached role, and from which it expires.
  abbrev IsSource : Cached → Read → Type 0
  IsSource e r = (r.agent ≡ agent) × (r.role ≡ e.role) × (e.expires_at ≡ r.at + ttl * 1000)

  record IsSourced (c : PermissionCache) (log : List Read) : Type 0 where
    ttl_kept : c.ttl_seconds ≡ ttl
    source : (e : Cached) → get agent c.cache ≡ some e → Any (IsSource e) log

  IsSourced-settle :
      (r : Read) (c : PermissionCache) (log : List Read)
      → IsSourced c log
      → IsSourced (store r.at r.agent (ok r.role) c).1 (r ∷ log)
  unfolding store
  IsSourced-settle r c log s = record {
    ttl_kept = s.ttl_kept;
    source = λ e found.
        let entry : Cached = record { role = r.role; expires_at = r.at + c.ttl_seconds * 1000 } in
        let found' : get agent (set r.agent entry c.cache) ≡ some e = found in
        elim (Bool-cases (r.agent == agent)) [
          | inl same ↦
              let e' : entry ≡ e = ground (arith, get-set r.agent agent entry c.cache) in
              inl ((eq_iff r.agent agent).0 same, rw (← e') refl, rw (← e', s.ttl_kept) refl)
          | inr other ↦ inr (s.source e (ground (arith, get-set r.agent agent entry c.cache)))
        ];
  }

  IsSourced-drop :
      (a : String) (c : PermissionCache) (log : List Read)
      → IsSourced c log
      → IsSourced (invalidate a c) log
  unfolding invalidate
  IsSourced-drop a c log s = record {
    ttl_kept = s.ttl_kept;
    source = λ e found. s.source e (ground (arith, get-delete a agent c.cache));
  }

  IsSourced-Step :
      {c d : PermissionCache} {log log' : List Read}
      → Step c log d log'
      → IsSourced c log
      → IsSourced d log'
  unfolding store clear get
  IsSourced-Step (settle r c log) s = IsSourced-settle r c log s
  IsSourced-Step (fail at a e c log) s = s
  IsSourced-Step (drop a c log) s = IsSourced-drop a c log s
  IsSourced-Step (flush c log) s = record { ttl_kept = s.ttl_kept; source = λ e found. absurd (cc) }

  IsSourced-Reach :
      {c : PermissionCache} {log : List Read} {d : PermissionCache} {log' : List Read}
      → Reach c log d log'
      → IsSourced c log
      → IsSourced d log'
  IsSourced-Reach here s = s
  IsSourced-Reach (next r st) s = IsSourced-Step st (IsSourced-Reach r s)

-- A read of the agent that gave the role, less than the time to live before `now`.
abbrev pub IsRecent : String → ℕ → ℕ → RoleWithPermissions → Read → Type 0
IsRecent agent ttl now role r = (r.agent ≡ agent) × (r.role ≡ role) × (now < r.at + ttl * 1000)

-- From a cache with no entry for an agent, as a new one, a cleared one or one just after the
-- agent's invalidation: whatever is stored, invalidated and cleared from then on, a role that the
-- cache serves for the agent came from a read of the chain that was stored since, less than the
-- time to live ago.
pub live-IsRecent :
    (agent : String) (c : PermissionCache)
    → get agent c.cache ≡ none
    → (d : PermissionCache) (log : List Read) → Reach c [] d log
    → (now : ℕ) (role : RoleWithPermissions) → live now (get agent d.cache) ≡ some role
    → Any (IsRecent agent c.ttl_seconds now role) log
live-IsRecent agent c empty d log r now role hit =
    let start : IsSourced agent c.ttl_seconds c [] = record {
      ttl_kept = refl;
      source = λ e found. absurd (cc);
    } in
    let sourced = IsSourced-Reach agent c.ttl_seconds r start in
    elim (Option-cases (get agent d.cache)) [
      | inl missing ↦ absurd (ground arith)
      | inr (e, found) ↦
          let same : e.role ≡ role = ground arith in
          let fresh : now < e.expires_at = ground arith in
          Any-map (IsSource agent c.ttl_seconds e) (IsRecent agent c.ttl_seconds now role)
            (λ r (who, what, when). (who, what ∙ same, rw when at fresh)) log
            (sourced.source e found)
    ]
