-- ===== src/Api/Pipeline/Forwarded.antt =====
-- When the forward handler makes a call (src/api/handlers/forward.ts).
use zuul_proxy.Prelude.{ℕ, String, ◌≡◌, refl, inl, inr, some, arith, Option-cases}
use zuul_proxy.Types.{Result-cases, ok}
use zuul_proxy.Custody.{KeyVault, get_key, inject}
use zuul_proxy.Proxy.Executor.{ForwardRequest, UpstreamCall, Fetched, Timeouts, build_call, execute}
use zuul_proxy.Api.Context.{HttpRequest, Context}
use zuul_proxy.Api.Forward.{Ready, ready, forward, forward_handler}
use zuul_proxy.Api.Pipeline.Stages.{IsUnflagged}

-- A call of the forward handler: the tool's key is loaded and injected, and no flag is set.
pub record Forwarded (vault : KeyVault) (timeouts : Timeouts) (req : HttpRequest) (c : Context)
    (u : UpstreamCall) : Type 0 where
  pub parts : Ready
  pub handle : String
  pub key : String
  pub complete : ready c ≡ some parts
  pub unflagged : IsUnflagged c
  pub held : get_key parts.tool vault ≡ ok handle
  pub injected : inject handle vault ≡ ok key
  pub call :
      build_call timeouts
        (record {
          method = parts.signed.method;
          target_url = parts.signed.target_url;
          headers = req.headers;
          body = req.body;
        })
        key
      ≡ u

module _ (vault : KeyVault) (timeouts : Timeouts) (chain_id : ℕ) (fetch : UpstreamCall → Fetched)
    (latency_ms reply_s : ℕ) (req : HttpRequest) (c : Context) (u : UpstreamCall) where
  abbrev request_of : Ready → ForwardRequest
  request_of r = record {
    method = r.signed.method;
    target_url = r.signed.target_url;
    headers = req.headers;
    body = req.body;
  }

  forward_call :
      (r : Ready)
      → ready c ≡ some r
      → IsUnflagged c
      → (forward vault timeouts chain_id fetch latency_ms reply_s req c r).1 ≡ some u
      → Forwarded vault timeouts req c u
  unfolding forward execute
  forward_call r complete unflagged e = elim (Result-cases (get_key r.tool vault)) [
    | inr (_, missing) ↦ absurd (ground arith)
    | inl (handle, held) ↦ elim (Result-cases (inject handle vault)) [
      | inr (_, refused) ↦ absurd (ground arith)
      | inl (key, injected) ↦ record {
        parts = r;
        handle = handle;
        key = key;
        complete = complete;
        unflagged = unflagged;
        held = held;
        injected = injected;
        call = ground arith;
      }
    ]
  ]

  pub handler_call :
      (forward_handler vault timeouts chain_id fetch latency_ms reply_s req c).1 ≡ some u
      → Forwarded vault timeouts req c u
  unfolding forward_handler
  handler_call e = elim (Option-cases (ready c)) [
    | inl bad ↦ absurd (ground arith)
    | inr (r, complete) ↦ elim (Option-cases c.unknown_tool) [
      | inr (f, flagged) ↦ absurd (ground arith)
      | inl known ↦ elim (Option-cases c.agent_revoked) [
        | inr (f, flagged) ↦ absurd (ground arith)
        | inl active ↦ elim (Option-cases c.permission_denied) [
          | inr (f, flagged) ↦ absurd (ground arith)
          | inl permitted ↦
              forward_call r complete
                (record { known = known; active = active; permitted = permitted })
                (rw (complete, known, active, permitted, forward_handler) at e)
        ]
      ]
    ]
  ]

  pub handler_call_of :
      Forwarded vault timeouts req c u
      → (forward_handler vault timeouts chain_id fetch latency_ms reply_s req c).1 ≡ some u
  unfolding forward_handler forward execute
  handler_call_of h =
      rw
        (
          h.complete, h.unflagged.known, h.unflagged.active, h.unflagged.permitted, h.held,
          h.injected, forward_handler, forward, execute,
        )
        (rw h.call refl)
