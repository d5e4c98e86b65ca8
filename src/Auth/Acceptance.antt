-- ===== src/Auth/Acceptance.antt =====
-- When a signed request is accepted (src/auth/signature.ts).
use zuul_proxy.Prelude.{
  ◌↔◌, ℕ, String, ◌≡◌, ◌≢◌, refl, inl, inr, true, Option, none, some, arith, eq_refl, Bool-cases,
  Option-cases,
}
use zuul_proxy.Prelude.Number.{Number}
use zuul_proxy.Types.{SignedRequest, Result, ok, err, text}
use zuul_proxy.Auth.Guards.{is_agent_address}
use zuul_proxy.Errors.{ZuulError}
use zuul_proxy.Prelude.Text.{codes_eq, codes_eq→eq, codes_eq_refl, to_lower_case}
use zuul_proxy.Auth.Signature.{
  Payload, NonceValidator, seconds, build_canonical_payload, recover_signer, check_replay,
  verify_recovered, verify_signed_request,
}
use zuul_proxy.Auth.Signature.Validators.{
  stored, IsFresh, validate_iff, validate_and_store_reuse, validate_and_store_fresh,
}

module _ (recover : Payload → String → Option String) where
  -- What an acceptance says of the store and the clock.
  pub record IsAccepted (now : ℕ) (req : SignedRequest) (signer : String) (v w : NonceValidator)
      : Type 0 where
    pub unused : stored signer req.nonce v ≡ none
    pub spent : stored signer req.nonce w ≡ some req.timestamp
    pub fresh : IsFresh (seconds now) req.timestamp

  pub check_replay_signer :
      (now : ℕ) (req : SignedRequest) (signer agent : String) (v : NonceValidator)
      → (check_replay now req signer v).0 ≡ ok agent
      → signer ≡ agent
  unfolding check_replay
  check_replay_signer now req signer agent v e = ground arith

  check_replay_fresh :
      (now : ℕ) (req : SignedRequest) (signer agent : String) (v : NonceValidator)
      → stored signer req.nonce v ≡ none
      → (check_replay now req signer v).0 ≡ ok agent
      → IsAccepted now req signer v (check_replay now req signer v).1
  unfolding check_replay
  check_replay_fresh now req signer agent v unused e =
      let f = validate_and_store_fresh signer req.nonce req.timestamp v unused in
      record {
        unused = unused;
        spent = ground (arith, f.0, f.1 signer req.nonce, eq_refl signer, eq_refl req.nonce);
        fresh = (validate_iff now req.timestamp).0 (ground (arith, f.0));
      }

  check_replay_reuse :
      (now : ℕ) (req : SignedRequest) (signer agent : String) (v : NonceValidator) (old : Number)
      → stored signer req.nonce v ≡ some old
      → (check_replay now req signer v).0 ≢ ok agent
  unfolding check_replay
  check_replay_reuse now req signer agent v old reuse e =
      ground (arith, (validate_and_store_reuse signer req.nonce req.timestamp v reuse).0)

  pub check_replay_ok :
      (now : ℕ) (req : SignedRequest) (signer agent : String) (v : NonceValidator)
      → (check_replay now req signer v).0 ≡ ok agent
      → IsAccepted now req signer v (check_replay now req signer v).1
  check_replay_ok now req signer agent v e = elim (Option-cases (stored signer req.nonce v)) [
    | inl unused ↦ check_replay_fresh now req signer agent v unused e
    | inr (old, reuse) ↦ absurd (check_replay_reuse now req signer agent v old reuse e)
  ]

  -- The conditions under which a request is accepted for an agent.
  pub record IsAdmissible (now : ℕ) (req : SignedRequest) (agent : String) (v : NonceValidator)
      : Type 0 where
    pub recovered :
        recover
          (build_canonical_payload req.method req.target_url req.nonce req.timestamp)
          req.signature
        ≡ some agent
    pub address : is_agent_address (text agent) ≡ true
    pub claimed : to_lower_case agent ≡ to_lower_case req.agent_address
    pub unused : stored agent req.nonce v ≡ none
    pub fresh : IsFresh (seconds now) req.timestamp

  recover_signer_ok :
      (payload : Payload) (signature agent : String)
      → recover_signer recover payload signature ≡ ok agent
      → (recover payload signature ≡ some agent) × (is_agent_address (text agent) ≡ true)
  unfolding recover_signer
  recover_signer_ok payload signature agent e = ground arith

  pub verify_recovered_ok :
      (now : ℕ) (req : SignedRequest) (v : NonceValidator) (r : Result ZuulError String)
      (agent : String)
      → (verify_recovered now req v r).0 ≡ ok agent
      → (r ≡ ok agent)
        × (to_lower_case agent ≡ to_lower_case req.agent_address)
        × IsAccepted now req agent v (verify_recovered now req v r).1
  unfolding verify_recovered
  verify_recovered_ok now req v (err e') agent e = cc
  verify_recovered_ok now req v (ok signer) agent e =
      elim (Bool-cases (codes_eq (to_lower_case signer) (to_lower_case req.agent_address))) [
        | inl same ↦
            let e' : (check_replay now req signer v).0 ≡ ok agent = rw same at e in
            rw same (
              rw (← check_replay_signer now req signer agent v e')
                (refl, codes_eq→eq _ _ same, check_replay_ok now req signer agent v e'))
        | inr differs ↦ absurd (ground arith)
      ]

  recover_signer_complete :
      (payload : Payload) (signature agent : String)
      → recover payload signature ≡ some agent
      → is_agent_address (text agent) ≡ true
      → recover_signer recover payload signature ≡ ok agent
  unfolding recover_signer
  recover_signer_complete payload signature agent e address = ground arith

  check_replay_complete :
      (now : ℕ) (req : SignedRequest) (agent : String) (v : NonceValidator)
      → stored agent req.nonce v ≡ none
      → IsFresh (seconds now) req.timestamp
      → (check_replay now req agent v).0 ≡ ok agent
  unfolding check_replay
  check_replay_complete now req agent v unused fresh = ground (
    arith,
    (validate_and_store_fresh agent req.nonce req.timestamp v unused).0,
    (validate_iff now req.timestamp).1 fresh,
  )

  verify_recovered_complete :
      (now : ℕ) (req : SignedRequest) (v : NonceValidator) (agent : String)
      → to_lower_case agent ≡ to_lower_case req.agent_address
      → stored agent req.nonce v ≡ none
      → IsFresh (seconds now) req.timestamp
      → (verify_recovered now req v (ok agent)).0 ≡ ok agent
  unfolding verify_recovered
  verify_recovered_complete now req v agent claimed unused fresh =
      rw (claimed, codes_eq_refl) (check_replay_complete now req agent v unused fresh)

  -- A request is accepted for an agent exactly if viem recovers that agent from its signature over
  -- the canonical payload, the agent is a well-formed address equal to the claimed one but for
  -- case, the nonce is not stored for that agent, and the timestamp is at most five minutes from
  -- the proxy's clock, or NaN.
  pub verify_signed_request_iff :
      (now : ℕ) (req : SignedRequest) (v : NonceValidator) (agent : String)
      → ((verify_signed_request recover now req v).0 ≡ ok agent) ↔ IsAdmissible now req agent v
  unfolding verify_signed_request
  verify_signed_request_iff now req v agent = (
    λ e.
        let (r, claimed, accepted) = verify_recovered_ok now req v _ agent e in
        let (recovered, address) = recover_signer_ok _ _ agent r in
        record {
          recovered = recovered;
          address = address;
          claimed = claimed;
          unused = accepted.unused;
          fresh = accepted.fresh;
        },
    λ h.
        rw (recover_signer_complete _ _ agent h.recovered h.address)
          (verify_recovered_complete now req v agent h.claimed h.unused h.fresh),
  )
