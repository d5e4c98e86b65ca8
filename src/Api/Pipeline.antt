-- ===== src/Api/Pipeline.antt =====
-- The route `/forward/*` of src/api/server.ts: the three middleware and the handler, one after the
-- other, for one request.
pub mod Stages
pub mod Forwarded
pub mod Granted
pub mod Passing
pub mod Authorisation
pub mod Settled
pub mod Refusal
pub mod Accounting
use zuul_proxy.Prelude.{ℕ, String, List, Option, none, some}
use zuul_proxy.Types.{Role, Result}
use zuul_proxy.Auth.Signature.{Payload, NonceValidator}
use zuul_proxy.Proxy.Registry.{ToolRegistry}
use zuul_proxy.Proxy.Executor.{UpstreamCall, Fetched, Timeouts}
use zuul_proxy.Custody.{KeyVault}
use zuul_proxy.Rbac.Cache.{PermissionCache}
use zuul_proxy.Audit.Queue.{World}
use zuul_proxy.Api.Context.{HttpRequest, Context, new_context, Response, Outcome, respond, proceed}
use zuul_proxy.Api.Signature.{signature_middleware}
use zuul_proxy.Api.Rbac.{rbac_middleware}
use zuul_proxy.Api.Forward.{Reply, reply, forward_handler}
use zuul_proxy.Api.Audit.{AuditTools, AuditInput, audit_middleware}

-- What the server is built with.
pub record Server : Type 0 where
  pub registry : ToolRegistry
  pub vault : KeyVault
  pub timeouts : Timeouts
  pub chain_id : ℕ

-- What it calls: viem, `decodeURIComponent`, `fetch`, and the tools of the audit middleware.
pub record Platform : Type 0 where
  pub recover : Payload → String → Option String
  pub decode : String → Option String
  pub fetch : UpstreamCall → Fetched
  pub audit : AuditTools

-- What the run of one request reads: its id, the clocks, the answers of the chain, and the input of
-- the audit middleware.
pub record Run : Type 0 where
  pub request_id : String
  pub verify_ms : ℕ
  pub now : ℕ
  pub later : ℕ
  pub reply_s : ℕ
  pub outcomes : ℕ → Result String Role
  pub latency_ms : ℕ
  pub audit : AuditInput

-- The state that requests share: each part as the stage of the request that uses it finds it.
pub record Shared : Type 0 where
  pub nonces : NonceValidator
  pub cache : PermissionCache
  pub audit : World

-- What one request leaves: its reply, the upstream call that it made, and the shared state.
pub record Handled : Type 0 where
  pub answer : Reply
  pub call : Option UpstreamCall
  pub shared : Shared

module _ (server : Server) (platform : Platform) (run : Run) (req : HttpRequest) where
  unfoldable pub run_handler : Context → Reply × Option UpstreamCall
  run_handler c =
      forward_handler server.vault server.timeouts server.chain_id platform.fetch run.latency_ms
        run.reply_s req c

  -- The audit middleware around the handler.
  unfoldable pub audited : Context → Shared → Handled
  unfolding run_handler
  audited c s =
      let (answer, call) = run_handler c in
      record {
        answer = answer;
        call = call;
        shared = record s { audit = audit_middleware platform.audit run.audit c answer s.audit };
      }

  unfoldable pub after_rbac : Outcome × PermissionCache → Shared → Handled
  unfolding audited
  after_rbac (respond r, cache) s = record {
    answer = reply r;
    call = none;
    shared = record s { cache = cache };
  }
  after_rbac (proceed c, cache) s = audited c (record s { cache = cache })

  unfoldable pub after_signature : Outcome × NonceValidator → Shared → Handled
  unfolding after_rbac rbac_middleware
  after_signature (respond r, nonces) s = record {
    answer = reply r;
    call = none;
    shared = record s { nonces = nonces };
  }
  after_signature (proceed c, nonces) s =
      after_rbac
        (rbac_middleware server.registry run.now run.later run.reply_s run.outcomes c s.cache)
        (record s { nonces = nonces })

  unfoldable pub handle : Shared → Handled
  unfolding after_signature signature_middleware
  handle s =
      after_signature
        (signature_middleware platform.recover platform.decode run.verify_ms run.reply_s req
          (new_context run.request_id) s.nonces)
        s
