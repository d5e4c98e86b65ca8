-- ===== src/Demo/Answer.antt =====
-- demo/agent.ts: how the client asks for the tools, and what it makes of the proxy's answers. The
-- JSON texts on the way are read back as what was written.
use zuul_proxy.Prelude.{
  ℕ, String, Bool, ◌&&◌, List, Option, none, some, ◌==◌, ltb, leb, if◌then◌else◌,
}
use zuul_proxy.Prelude.Json.{Json, null, text, obj, field, end, get_field, is_truthy}
use zuul_proxy.Prelude.Text.{concat, show}
use zuul_proxy.Types.{Result, ok, err}
use zuul_proxy.Proxy.Executor.{includes}
use zuul_proxy.Api.Rpc.{ToolListItem, RpcBody, failure, tools, description, RpcResponse}
use zuul_proxy.Demo.Agent.{Account}

-- `response.ok`
abbrev pub is_ok : ℕ → Bool
is_ok status = leb 200 status && ltb status 300

-- The body that `callToolsList` posts; `id` is `randomUUID()`.
unfoldable pub tools_list_body : Account → String → Json
tools_list_body account id = obj (
    field "jsonrpc" (text "2.0") (
      field "method" (text "tools/list") (
        field "params" (obj (field "agent_address" (text account.address) end))
          (field "id" (text id) end))))

abbrev listed_tools : RpcBody → Result String (Option (List ToolListItem))
listed_tools (failure code message) = err (concat "RPC error: " message)
listed_tools (tools items) = ok (some items)
listed_tools (description t) = ok none

-- What `callToolsList` returns for the answer; an `err` is what it throws, and `none` undefined.
unfoldable pub call_tools_list : RpcResponse → Result String (Option (List ToolListItem))
call_tools_list r =
    if is_ok r.status
    then listed_tools r.body
    else err (concat "tools/list failed: " (show r.status))

-- The answer to a tool call: `json` is its body as JSON, `none` where `json()` throws.
pub record ToolAnswer : Type 0 where
  pub status : ℕ
  pub content_type : Option String
  pub json : Option Json
  pub text : String
  pub governance : Option String

-- What `callTool` attaches to the error that it throws.
pub record ToolError : Type 0 where
  pub governance : Option Json
  pub code : Option Json
  pub message : Option Json
  pub http_status : ℕ

-- How `callTool` ends: with a result, with its own error, or with another throw.
pub data ToolCall : Type 0 where
  returned : Json → Option Json → ToolCall
  refused : ToolError → ToolCall
  broken : ToolCall

-- `v[k]`, of a value that is not null
unfoldable pub member : String → Json → Option Json
unfolding get_field
member k (obj fs) = get_field k fs
member k v = none

-- `v || {}`
abbrev or_object : Option Json → Json
or_object none = obj end
or_object (some v) = if is_truthy v then v else obj end

-- `v || json`
abbrev or_whole : Option Json → Json → Json
or_whole none json = json
or_whole (some v) json = if is_truthy v then v else json

unfoldable pub read_refusal : ℕ → Json → ToolCall
unfolding member
read_refusal status null = broken
read_refusal status json =
    let e = or_object (member "error" json) in
    refused (record {
      governance = member "_governance" json;
      code = member "code" e;
      message = member "message" e;
      http_status = status;
    })

unfoldable pub read_result : Json → ToolCall
unfolding member
read_result null = broken
read_result json = returned (or_whole (member "result" json) json) (member "_governance" json)

-- The governance of an answer that is no JSON; `decode` is the JSON value of a base64 text, `none`
-- where it throws.
abbrev pub read_text : (String → Option Json) → String → Option String → ToolCall
read_text decode body none = returned (text body) none
read_text decode body (some header) =
    if header == ""
    then returned (text body) none
    else elim (decode header) [ none ↦ broken | some g ↦ returned (text body) (some g) ]

-- `response.headers.get('content-type') || ''`
abbrev pub or_empty : Option String → String
or_empty none = ""
or_empty (some s) = s

-- `callTool` from the proxy's answer on.
unfoldable pub read_answer : (String → Option Json) → ToolAnswer → ToolCall
unfolding read_refusal read_result includes
read_answer decode a =
    if is_ok a.status
    then (if includes (or_empty a.content_type) "application/json"
        then elim a.json [ none ↦ broken | some json ↦ read_result json ]
        else read_text decode a.text a.governance)
    else elim a.json [ none ↦ broken | some json ↦ read_refusal a.status json ]
