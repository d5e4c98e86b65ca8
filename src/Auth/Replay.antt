-- ===== src/Auth/Replay.antt =====
-- Replay protection over time: verifications and sweeps of the nonce store in any order
-- (src/auth/signature.ts).
use zuul_proxy.Prelude.{
  ℕ, String, ◌≤◌, ◌≡◌, ◌≢◌, ◌⊎◌, inl, inr, true, Option, some, arith, eq_iff, Bool-cases,
  Option-cases,
}
use zuul_proxy.Prelude.Number.{Number}
use zuul_proxy.Types.{SignedRequest, Result, ok, err}
use zuul_proxy.Errors.{ZuulError}
use zuul_proxy.Auth.Signature.{
  Payload, NonceValidator, validate_and_store, is_expired, cleanup, seconds, check_replay,
  verify_recovered, verify_signed_request,
}
use zuul_proxy.Auth.Signature.Validators.{
  stored, is_err, validate_and_store_reuse, validate_and_store_fresh, is_expired_mono,
  validate_expired, stored-cleanup,
}
use zuul_proxy.Auth.Acceptance.{check_replay_signer, verify_recovered_ok}

-- A nonce of an agent is spent: it is stored with the timestamp, or the timestamp has expired.
abbrev IsSpent : String → String → Number → ℕ → NonceValidator → Type 0
IsSpent agent nonce ts now v =
    (stored agent nonce v ≡ some ts) ⊎ (is_expired (seconds now) ts ≡ true)

module _ (recover : Payload → String → Option String) where
  -- What happens between two requests: time passes, and the proxy verifies some request or sweeps
  -- the store. A verification is one step, since the source awaits only the recovery of the signer,
  -- before it reads the store or the clock.
  pub data Step : ℕ → NonceValidator → ℕ → NonceValidator → Type 0 where
    verify :
        (now later : ℕ) (v : NonceValidator) (req : SignedRequest)
        → now ≤ later
        → Step now v later (verify_signed_request recover later req v).1
    sweep : (now later : ℕ) (v : NonceValidator) → now ≤ later → Step now v later (cleanup later v)

  pub data Reach (now : ℕ) (v : NonceValidator) : ℕ → NonceValidator → Type 0 where
    here : Reach now v now v
    next : {t t' : ℕ} {w w' : NonceValidator} → Reach now v t w → Step t w t' w' → Reach now v t' w'

  module _ (agent nonce : String) (ts : Number) where
    IsSpent-store :
        (now : ℕ) (a n : String) (t : Number) (v : NonceValidator)
        → IsSpent agent nonce ts now v
        → IsSpent agent nonce ts now (validate_and_store a n t v).1
    IsSpent-store now a n t v (inr h) = inr h
    IsSpent-store now a n t v (inl h) = elim (Option-cases (stored a n v)) [
      | inl fresh ↦ inl (
          ground (
            arith,
            (validate_and_store_fresh a n t v fresh).1 agent nonce,
            eq_iff a agent,
            eq_iff n nonce,
          ))
      | inr (old, reuse) ↦ inl (rw ((validate_and_store_reuse a n t v reuse).1) h)
    ]

    IsSpent-check :
        (now : ℕ) (req : SignedRequest) (signer : String) (v : NonceValidator)
        → IsSpent agent nonce ts now v
        → IsSpent agent nonce ts now (check_replay now req signer v).1
    unfolding check_replay
    IsSpent-check now req signer v h =
        ground (arith, IsSpent-store now signer req.nonce req.timestamp v h)

    IsSpent-recovered :
        (now : ℕ) (req : SignedRequest) (v : NonceValidator) (r : Result ZuulError String)
        → IsSpent agent nonce ts now v
        → IsSpent agent nonce ts now (verify_recovered now req v r).1
    unfolding verify_recovered
    IsSpent-recovered now req v (err e) h = h
    IsSpent-recovered now req v (ok signer) h = ground (arith, IsSpent-check now req signer v h)

    IsSpent-later :
        (now later : ℕ) (v : NonceValidator)
        → now ≤ later
        → IsSpent agent nonce ts now v
        → IsSpent agent nonce ts later v
    IsSpent-later now later v le (inl h) = inl h
    IsSpent-later now later v le (inr h) = inr (is_expired_mono now later ts le h)

    IsSpent-sweep :
        (now : ℕ) (v : NonceValidator)
        → IsSpent agent nonce ts now v
        → IsSpent agent nonce ts now (cleanup now v)
    IsSpent-sweep now v (inr h) = inr h
    IsSpent-sweep now v (inl h) = elim (Bool-cases (is_expired (seconds now) ts)) [
      | inl old ↦ inr old
      | inr fresh ↦ inl (stored-cleanup now agent nonce v ts h fresh)
    ]

    IsSpent-Step :
        {t t' : ℕ} {w w' : NonceValidator}
        → Step t w t' w'
        → IsSpent agent nonce ts t w
        → IsSpent agent nonce ts t' w'
    IsSpent-Step (verify now later v req le) h =
        unfold verify_signed_request in
        IsSpent-recovered later req v _ (IsSpent-later now later v le h)
    IsSpent-Step (sweep now later v le) h = IsSpent-sweep later v (IsSpent-later now later v le h)

    IsSpent-Reach :
        {t : ℕ} {w : NonceValidator} {t' : ℕ} {w' : NonceValidator}
        → Reach t w t' w'
        → IsSpent agent nonce ts t w
        → IsSpent agent nonce ts t' w'
    IsSpent-Reach here h = h
    IsSpent-Reach (next r st) h = IsSpent-Step st (IsSpent-Reach r h)

    -- A spent nonce is refused, by the store or by the clock.
    check_replay_spent :
        (now : ℕ) (req : SignedRequest) (v : NonceValidator)
        → req.nonce ≡ nonce
        → req.timestamp ≡ ts
        → IsSpent agent nonce ts now v
        → is_err (check_replay now req agent v).0 ≡ true
    unfolding check_replay
    check_replay_spent now req v same_nonce same_ts (inl h) =
        ground (arith, (validate_and_store_reuse agent nonce req.timestamp v h).0)
    check_replay_spent now req v same_nonce same_ts (inr h) =
        ground (arith, validate_expired now ts h)

    verify_recovered_spent :
        (now : ℕ) (req : SignedRequest) (v : NonceValidator) (r : Result ZuulError String)
        → req.nonce ≡ nonce
        → req.timestamp ≡ ts
        → IsSpent agent nonce ts now v
        → (verify_recovered now req v r).0 ≢ ok agent
    unfolding verify_recovered
    verify_recovered_spent now req v (err e) same_nonce same_ts h e' = cc
    verify_recovered_spent now req v (ok signer) same_nonce same_ts h e =
        let spent = check_replay_spent now req v same_nonce same_ts h in
        ground (arith, check_replay_signer recover now req signer agent v, spent)

  -- Once a request was accepted at time `t`, no request with its nonce and its timestamp is
  -- accepted for the same signer at any later time, whatever was verified and swept in between.
  pub verify_no_replay :
      (t : ℕ) (req : SignedRequest) (v : NonceValidator) (signer : String)
      → (verify_signed_request recover t req v).0 ≡ ok signer
      → (t' : ℕ) (w : NonceValidator) → Reach t (verify_signed_request recover t req v).1 t' w
      → (later : ℕ) (again : SignedRequest) → t' ≤ later
      → again.nonce ≡ req.nonce
      → again.timestamp ≡ req.timestamp
      → (verify_signed_request recover later again w).0 ≢ ok signer
  unfolding verify_signed_request
  verify_no_replay t req v signer accepted t' w r later again le same_nonce same_ts =
      let (_, _, accepted) = verify_recovered_ok recover t req v _ signer accepted in
      verify_recovered_spent signer req.nonce req.timestamp later again w _ same_nonce same_ts (
        IsSpent-later signer req.nonce req.timestamp t' later w le
          (IsSpent-Reach signer req.nonce req.timestamp r (inl accepted.spent)))
