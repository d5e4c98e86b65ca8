-- ===== src/Proxy/Executor.antt =====
-- src/proxy/executor.ts: one upstream call, with the API key put in. `fetch` and the answer's
-- readers stand for the platform's; an `err` of theirs is the message of what they throw.
use zuul_proxy.Prelude.{
  ℕ, String, Bool, true, false, ◌||◌, ◌&&◌, List, [], ◌∷◌, Option, none, some, eqb, ◌==◌,
  if◌then◌else◌,
}
use zuul_proxy.Prelude.Dict.{Dict, set}
use zuul_proxy.Prelude.Number.{nat}
use zuul_proxy.Prelude.Text.{concat, codes}
use zuul_proxy.Types.{Result, ok, err, Value, number}
use zuul_proxy.Errors.{
  ZuulError, ErrorKey, internal_error, service_timeout, upstream_error, errors, new_service_error,
  Info,
}
use zuul_proxy.Custody.{KeyVault, inject}

pub record ForwardRequest : Type 0 where
  pub method : String
  pub target_url : String
  pub headers : Dict String
  pub body : String

-- The arguments of `fetch`, and the time after which it is aborted.
pub record UpstreamCall : Type 0 where
  pub method : String
  pub target_url : String
  pub headers : Dict String
  pub body : Option String
  pub timeout_ms : ℕ

-- What `fetch` answers with; the body's readers, with that of `text()` after a failed `json()`.
pub record Upstream : Type 0 where
  pub status : ℕ
  pub content_type : Option String
  pub headers : Dict String
  pub json : Result String String
  pub text_after_json : Result String String
  pub text : Result String String
  pub stream : String
  pub array_buffer : Result String String

pub data Fetched : Type 0 where
  answered : Upstream → Fetched
  aborted : Fetched
  failed : String → Fetched

pub data ContentType : Type 0 where
  json binary sse text : ContentType

pub record ExecutorResult : Type 0 where
  pub status : ℕ
  pub headers : Dict String
  pub body : String
  pub content_type : ContentType

pub record Timeouts : Type 0 where
  pub read_timeout_ms : ℕ
  pub write_timeout_ms : ℕ

-- `s.includes(t)` on code points.
starts : List ℕ → List ℕ → Bool
starts [] s = true
starts (c ∷ t) [] = false
starts (c ∷ t) (d ∷ s) = eqb c d && starts t s

contains : List ℕ → List ℕ → Bool
contains t [] = starts t []
contains t (d ∷ s) = starts t (d ∷ s) || contains t s

unfoldable pub includes : String → String → Bool
unfolding starts contains
includes s t = contains (codes t) (codes s)

unfoldable pub service_failure : String → ErrorKey → Info → ZuulError
unfolding new_service_error errors
service_failure message key info =
    new_service_error message (errors key).code (errors key).http_status (errors key).error_type
      info

abbrev pub timeout_for : Timeouts → String → ℕ
timeout_for t method =
    if method == "GET" || method == "HEAD" then t.read_timeout_ms else t.write_timeout_ms

-- What is handed to `fetch`: `if (req.body)` fails for the empty text.
unfoldable pub build_call : Timeouts → ForwardRequest → String → UpstreamCall
build_call t req key = record {
  method = req.method;
  target_url = req.target_url;
  headers = set "Authorization" (concat "Bearer " key) req.headers;
  body = if req.body == "" then none else some req.body;
  timeout_ms = timeout_for t req.method;
}

abbrev or_blank : Option String → String
or_blank none = ""
or_blank (some s) = s

-- A body that was read, or the message of what its reader threw.
abbrev with_body : Upstream → ContentType → Result String String → Result String ExecutorResult
with_body u kind (ok body) =
    ok (record { status = u.status; headers = u.headers; body = body; content_type = kind })
with_body u kind (err message) = err message

-- `json()`, and `text()` where it throws.
abbrev json_body : Upstream → Result String String → Result String ExecutorResult
json_body u (ok body) = with_body u ContentType.json (ok body)
json_body u (err _) = with_body u ContentType.text u.text_after_json

-- Step 4.
unfoldable pub parse_response : Upstream → Result String ExecutorResult
unfolding includes
parse_response u =
    let kind = or_blank u.content_type in
    if includes kind "application/json"
    then json_body u u.json
    else if includes kind "text/event-stream"
    then with_body u ContentType.sse (ok u.stream)
    else if includes kind "text/"
    then with_body u ContentType.text u.text
    else with_body u ContentType.binary u.array_buffer

unfoldable pub upstream_failure : String → ZuulError
unfolding service_failure
upstream_failure message =
    service_failure "Upstream error" upstream_error (("reason", Value.text message) ∷ [])

unfoldable pub finish : ℕ → Fetched → Result ZuulError ExecutorResult
finish latency_ms aborted = err (
    service_failure "Upstream timeout" service_timeout
      (("timeout_ms", number (nat latency_ms)) ∷ []))
finish latency_ms (failed message) = err (upstream_failure message)
finish latency_ms (answered u) = elim (parse_response u) [
  | ok r ↦ ok r
  | err message ↦ err (upstream_failure message)
]

-- `execute`: the result, and the call that was made, if any.
unfoldable pub execute :
    KeyVault
    → Timeouts
    → (UpstreamCall → Fetched)
    → ℕ
    → ForwardRequest
    → String
    → Result ZuulError ExecutorResult × Option UpstreamCall
unfolding inject build_call service_failure finish parse_response upstream_failure
execute vault timeouts fetch latency_ms req handle = elim (inject handle vault) [
  | err _ ↦ (err (service_failure "Failed to inject API key" internal_error []), none)
  | ok key ↦ let call = build_call timeouts req key in (finish latency_ms (fetch call), some call)
]
