-- ===== src/Api/Forward.antt =====
-- src/api/handlers/forward.ts: the handler behind the middleware.
use zuul_proxy.Prelude.{
  ℕ, String, Bool, false, ◌||◌, eqb, [], ◌∷◌, Option, none, some, ◌==◌, if◌then◌else◌,
}
use zuul_proxy.Prelude.Number.{ℤ, pos, negsuc}
use zuul_proxy.Types.{PermissionAction, SignedRequest, Result, ok, err, text, other}
use zuul_proxy.Errors.{ZuulError, Info, minus}
use zuul_proxy.Custody.{KeyVault, get_key}
use zuul_proxy.Proxy.Executor.{
  ForwardRequest, UpstreamCall, Fetched, ContentType, json, binary, sse, ExecutorResult, Timeouts,
  execute,
}
use zuul_proxy.Api.Context.{
  HttpRequest, Context, Flag, Denial, Governance, Response, rpc_error, wrapped, events,
  plain_governance,
}
use zuul_proxy.Api.Rbac.{action_text}

-- What the handler gives back: a response, or nothing, with the status that it set.
pub data Reply : Type 0 where
  reply : Response → Reply
  nothing : ℕ → Reply

-- The parts of the context that the handler needs.
pub record Ready : Type 0 where
  pub agent : String
  pub signed : SignedRequest
  pub tool : String
  pub action : PermissionAction

-- `!recoveredAddress || !signedRequest || !toolKey || !action`: the empty text is falsy.
unfoldable pub ready : Context → Option Ready
ready c = elim c.recovered_address [
  | none ↦ none
  | some agent ↦ elim c.signed_request [
    | none ↦ none
    | some signed ↦ elim c.tool_key [
      | none ↦ none
      | some tool ↦ elim c.action [
        | none ↦ none
        | some action ↦
            if agent == "" || tool == ""
            then none
            else some (record { agent = agent; signed = signed; tool = tool; action = action })
      ]
    ]
  ]
]

-- The governance object of the handler's errors.
abbrev governance : Context → Ready → ℕ → String → Governance
governance c r reply_s error_type = record (plain_governance c.request_id reply_s error_type) {
  agent = some r.agent;
  tool = some r.tool;
  action = some r.action;
}

abbrev failure : ℕ → ℤ → String → Info → Governance → Reply
failure status code message info g =
    reply (record { status = status; body = rpc_error code message info g })

missing_context : Context → ℕ → Reply
missing_context c reply_s =
    failure 500 (minus 32603) "Internal server error" []
      (plain_governance c.request_id reply_s "service/internal_error")

internal : Context → Ready → ℕ → Reply
internal c r reply_s =
    failure 500 (minus 32603) "Internal server error" []
      (governance c r reply_s "service/internal_error")

unknown_tool_reply : Context → Ready → ℕ → Flag → Reply
unknown_tool_reply c r reply_s f =
    failure 404 f.code f.message f.info (governance c r reply_s "request/unknown_tool")

revoked_reply : Context → Ready → ℕ → Flag → Reply
revoked_reply c r reply_s f =
    failure 403 f.code f.message f.info (governance c r reply_s "permission/agent_revoked")

denied_reply : Context → Ready → ℕ → Denial → Reply
denied_reply c r reply_s d =
    failure 403 d.code d.message
      (("tool", text r.tool)
        ∷ ("action", text (action_text r.action))
        ∷ ("allowed_actions", other)
        ∷ [])
      (governance c r reply_s "permission/no_action_access")

-- `execResult.error.code === -32021`
is_timeout : ℤ → Bool
is_timeout (pos n) = false
is_timeout (negsuc n) = eqb n 32020

upstream_error : Context → Ready → ℕ → ℕ → ZuulError → Reply
unfolding is_timeout
upstream_error c r latency_ms reply_s e =
    failure (if is_timeout e.code then 504 else 502) e.code e.message e.info
      (record (governance c r reply_s "service/upstream_error") {
        target_url = some r.signed.target_url;
        latency_ms = some latency_ms;
      })

success_governance : Context → Ready → ℕ → ℕ → ℕ → Governance
success_governance c r chain_id latency_ms reply_s = record {
  request_id = c.request_id;
  agent = some r.agent;
  tool = some r.tool;
  action = some r.action;
  target_url = some r.signed.target_url;
  latency_ms = some latency_ms;
  chain_id = some chain_id;
  timestamp = reply_s;
  error_type = none;
}

-- The wrapping by content type: of an event stream only the first event, the governance object, is
-- written, since the stream of `fetch` is a web stream and has no `pipe`; for text and binary bodies the source builds a response, drops it,
-- and returns nothing.
wrap : Governance → ExecutorResult → ContentType → Reply
wrap g result json = reply (record { status = result.status; body = wrapped result.body g })
wrap g result sse = reply (record { status = result.status; body = events g })
wrap g result binary = nothing result.status
wrap g result ContentType.text = nothing result.status

-- The answer from the executor's result on.
unfoldable pub answer : Context → Ready → ℕ → ℕ → ℕ → Result ZuulError ExecutorResult → Reply
unfolding upstream_error success_governance wrap
answer c r chain_id latency_ms reply_s (err e) = upstream_error c r latency_ms reply_s e
answer c r chain_id latency_ms reply_s (ok result) =
    wrap (success_governance c r chain_id latency_ms reply_s) result result.content_type

module _ (vault : KeyVault) (timeouts : Timeouts) (chain_id : ℕ)
    (fetch : UpstreamCall → Fetched) where
  -- The handler's `try`, for a request that no flag stops.
  unfoldable pub forward : ℕ → ℕ → HttpRequest → Context → Ready → Reply × Option UpstreamCall
  unfolding internal
  forward latency_ms reply_s req c r = elim (get_key r.tool vault) [
    | err e ↦ (internal c r reply_s, none)
    | ok handle ↦
        let forward_req : ForwardRequest = record {
          method = r.signed.method;
          target_url = r.signed.target_url;
          headers = req.headers;
          body = req.body;
        } in
        let (result, call) = execute vault timeouts fetch latency_ms forward_req handle in
        (answer c r chain_id latency_ms reply_s result, call)
  ]

  unfoldable pub forward_handler : ℕ → ℕ → HttpRequest → Context → Reply × Option UpstreamCall
  unfolding missing_context unknown_tool_reply revoked_reply denied_reply
  forward_handler latency_ms reply_s req c = elim (ready c) [
    | none ↦ (missing_context c reply_s, none)
    | some r ↦ elim c.unknown_tool [
      | some f ↦ (unknown_tool_reply c r reply_s f, none)
      | none ↦ elim c.agent_revoked [
        | some f ↦ (revoked_reply c r reply_s f, none)
        | none ↦ elim c.permission_denied [
          | some d ↦ (denied_reply c r reply_s d, none)
          | none ↦ forward latency_ms reply_s req c r
        ]
      ]
    ]
  ]
