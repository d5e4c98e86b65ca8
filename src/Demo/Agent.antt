-- ===== src/Demo/Agent.antt =====
-- demo/agent.ts: how the client makes a request. `Account` is viem's account of the client's key;
-- `encode` is `encodeURIComponent`. A request is what the proxy gets: the names of headers in lower
-- case, the path after the proxy's origin, and the headers that `fetch` adds at the end.
use zuul_proxy.Prelude.{ℕ, ◌/◌, String, ◌∷◌}
use zuul_proxy.Prelude.Dict.{Dict}
use zuul_proxy.Prelude.Number.{nat}
use zuul_proxy.Prelude.Text.{concat, show}
use zuul_proxy.Types.{HttpMethod}
use zuul_proxy.Auth.Guards.{method_text}
use zuul_proxy.Auth.Signature.{Payload, build_canonical_payload}
use zuul_proxy.Api.Context.{HttpRequest}

pub record Account : Type 0 where
  pub address : String
  pub sign_message : Payload → String

-- `signRequest`
unfoldable pub sign_request : Account → HttpMethod → String → String → ℕ → String
unfolding build_canonical_payload
sign_request account method url nonce timestamp =
    account.sign_message (build_canonical_payload (method_text method) url nonce (nat timestamp))

-- The request of `callTool`: `nonce` is `randomUUID()`, `now_ms` is `Date.now()`, and `body` is the
-- JSON text of the body, or empty.
unfoldable pub call_tool :
    Account
    → (String → String)
    → HttpMethod
    → String
    → String
    → ℕ
    → String
    → Dict String
    → HttpRequest
unfolding sign_request show
call_tool account encode method url nonce now_ms body added = record {
  method = method_text method;
  path = concat "/forward/" (encode url);
  headers =
      ("x-agent-address", account.address)
      ∷ ("x-signature", sign_request account method url nonce (now_ms / 1000))
      ∷ ("x-nonce", nonce)
      ∷ ("x-timestamp", show (now_ms / 1000))
      ∷ ("content-type", "application/json")
      ∷ added;
  body = body;
}
