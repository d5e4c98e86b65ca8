-- ===== src/System/Revoked/Final.antt =====
-- A revoked agent calls no tool (src/api/handlers/admin.ts, src/api/server.ts, contracts/RBAC.sol).
use zuul_proxy.Prelude.{ℕ, List, String, ◌≡◌, ◌≢◌, refl, inl, some, All, All-map}
use zuul_proxy.Types.{ok}
use zuul_proxy.Audit.Contract.{Written}
use zuul_proxy.Proxy.Executor.{UpstreamCall}
use zuul_proxy.Rbac.Cache.{PermissionCache}
use zuul_proxy.Auth.Acceptance.{verify_signed_request_iff}
use zuul_proxy.Api.Context.{HttpRequest, new_context}
use zuul_proxy.Api.Signature.{build_signed_request}
use zuul_proxy.Api.Pipeline.Stages.{signature_proceed_of}
use zuul_proxy.Api.Pipeline.{Run, handle}
use zuul_proxy.Api.Pipeline.Authorisation.{IsAuthorised, handle_call_iff}
use zuul_proxy.Api.Admin.Revoke.{Environment, Viem, perform_emergency_revoke}
use zuul_proxy.Api.Admin.Revoke.Served.{after_revoke, get-invalidate}
use zuul_proxy.Contracts.Rbac.{RbacContract, emergency_revoke}
use zuul_proxy.Contracts.Rbac.History.{emergency_revoke-gone}
use zuul_proxy.System.{System, Setting, IsRead, ReadsFor, Later}
use zuul_proxy.System.Revoked.{read-IsOff, get_role_off}
use zuul_proxy.System.Revoked.Steps.{IsCut, IsHarmless, Later-IsCut}

module _ (g : Setting) (agent a : String) (encoded : g.encode agent ≡ some a) where
  -- The reads of a run whose request makes a call are about its agent.
  reads_of :
      (s : System) (run : Run) (req : HttpRequest) (u : UpstreamCall)
      → ReadsFor g run req s
      → (h : IsAuthorised g.server g.platform run req s.shared u)
      → IsRead g s.contract h.agent run.outcomes
  reads_of s run req u reads h =
      let signed = build_signed_request req h.target in
      let c = record (new_context run.request_id) {
        recovered_address = some h.agent;
        signed_request = some signed;
      } in
      reads c h.agent
        (signature_proceed_of g.platform.recover g.platform.decode run.verify_ms run.reply_s req
          (new_context run.request_id) c s.shared.nonces
          (record {
            encoded = h.encoded;
            target = h.target;
            agent = h.agent;
            headers = h.headers;
            path = h.path;
            decoded = h.decoded;
            method = h.method;
            verified =
                (verify_signed_request_iff g.platform.recover run.verify_ms signed s.shared.nonces
                    h.agent).1
                  h.admissible;
            context = refl;
          }))
        refl

  IsCut-unauthorised :
      (s : System) (run : Run) (req : HttpRequest) (u : UpstreamCall)
      → IsCut agent a s
      → ReadsFor g run req s
      → (h : IsAuthorised g.server g.platform run req s.shared u) → h.agent ≢ agent
  IsCut-unauthorised s run req u cut reads h same =
      let answers : IsRead g s.contract agent run.outcomes =
        rw (same) at (reads_of s run req u reads h) in
      let off = read-IsOff g s.contract agent a encoded cut.gone run.outcomes answers in
      let inactive =
        get_role_off agent s.shared.cache cut.uncached run.now run.later run.outcomes h.role off
          (rw (same) at h.looked_up) in
      cc (inactive, h.active)

module _ (g : Setting) (s : System) (env : Environment) (viem : Viem)
    (fallback : String → String → Written) (agent tx : String) (cache : PermissionCache) where
  -- An emergency revocation of an agent that answers with success in the state `s`, with the cache
  -- after it.
  abbrev pub Revocation : Type 0
  Revocation =
      perform_emergency_revoke env viem fallback agent (some s.shared.cache) ≡ (ok tx, some cache)

  abbrev pub after : System
  after = record s { shared = record s.shared { cache = cache } }

  Revocation-IsCut :
      (sender a : String) (before : RbacContract)
      → Revocation
      → emergency_revoke sender a before ≡ some s.contract
      → All (λ l. l.agent ≢ agent) s.lookups
      → IsCut agent a after
  Revocation-IsCut sender a before e accepted idle =
      let dropped = after_revoke env viem fallback agent tx s.shared.cache cache e in
      record {
        gone = emergency_revoke-gone sender a before s.contract accepted;
        uncached = λ entry found.
            let none_left = get-invalidate agent s.shared.cache in
            absurd (cc (rw (dropped) at none_left, found));
        harmless =
            All-map (λ l. l.agent ≢ agent) (IsHarmless agent) (λ l other. inl other) s.lookups idle;
      }

  -- Let an emergency revocation answer with success for an agent whose address is typed in its
  -- checksum form, when the contract has accepted a transaction that revokes this address, and
  -- while no lookup of the agent is under way. Whatever requests, lookups, revocations,
  -- transactions and background work come then, in any order, as long as no transaction sets a role
  -- of the agent: a request that makes an upstream call is signed by an agent with another address.
  -- The reads of the contract that the requests and the lookups make give what the contract has, or
  -- fail; viem recovers every signer in checksum form.
  pub revoked_calls_nothing :
      (sender : String) (before : RbacContract) (t : System) (run : Run) (req : HttpRequest)
      (u : UpstreamCall)
      → g.encode agent ≡ some agent
      → ((payload : List ℕ) (signature signer : String)
          → g.platform.recover payload signature ≡ some signer
          → g.encode signer ≡ some signer)
      → Revocation
      → emergency_revoke sender agent before ≡ some s.contract
      → All (λ l. l.agent ≢ agent) s.lookups
      → Later g agent after t
      → ReadsFor g run req t
      → (handle g.server g.platform run req t.shared).call ≡ some u
      → (h : IsAuthorised g.server g.platform run req t.shared u) × (g.encode h.agent ≢ some agent)
  revoked_calls_nothing sender before t run req u typed checksums r accepted idle later reads e =
      let h = (handle_call_iff g.server g.platform run req t.shared u).0 e in
      let cut =
        Later-IsCut g agent agent typed later
          (Revocation-IsCut sender agent before r accepted idle) in
      let other = IsCut-unauthorised g agent agent typed t run req u cut reads h in
      let spelled = checksums _ _ h.agent h.admissible.recovered in
      (h, λ same. other (cc (same, spelled)))
