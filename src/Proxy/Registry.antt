-- ===== src/Proxy/Registry.antt =====
-- src/proxy/tool-registry.ts: from a target URL to a tool, by the longest base URL that is a
-- prefix.
pub mod Sorting
pub mod Longest
use zuul_proxy.Prelude.{
  starts_with, ℕ, String, Bool, List, [], ◌∷◌, ◌++◌, Option, none, some, ltb, if◌then◌else◌, map,
}
use zuul_proxy.Prelude.Dict.{Dict, get, set}
use zuul_proxy.Prelude.Text.{concat, js_length}
use zuul_proxy.Types.{Result, ok, err, text}
use zuul_proxy.Errors.{ZuulError, ErrorKey, unknown_tool, errors, new_request_error, Info}
use zuul_proxy.Config.{ToolConfig}

-- An item of `baseUrls`: the base URL and the tool's key.
abbrev pub Entry : Type 0
Entry = String × String

pub record ToolRegistry : Type 0 where
  pub tools : Dict ToolConfig
  pub base_urls : List Entry

-- `sort((a, b) => b.baseUrl.length - a.baseUrl.length)`, which is stable: an item goes before the
-- later ones that are as long.
unfoldable pub insert : Entry → List Entry → List Entry
insert e [] = e ∷ []
insert e (f ∷ l) = if ltb (js_length e.0) (js_length f.0) then f ∷ insert e l else e ∷ f ∷ l

unfoldable pub sort : List Entry → List Entry
unfolding insert
sort [] = []
sort (e ∷ l) = insert e (sort l)

-- The loop of the constructor.
unfoldable pub load : List ToolConfig → ToolRegistry → ToolRegistry
load [] r = r
load (t ∷ ts) r =
    load ts
      (record { tools = set t.key t r.tools; base_urls = r.base_urls ++ (t.base_url, t.key) ∷ [] })

unfoldable pub new_tool_registry : List ToolConfig → ToolRegistry
unfolding load sort
new_tool_registry tools =
    let loaded = load tools (record { tools = []; base_urls = [] }) in
    record loaded { base_urls = sort loaded.base_urls }

unfoldable pub unknown_url : String → ZuulError
unfolding errors new_request_error
unknown_url target_url =
    new_request_error "Unknown tool: target URL does not match any registered tool"
      (errors unknown_tool).code (errors unknown_tool).http_status (errors unknown_tool).error_type
      (("target_url", text target_url) ∷ [])

-- The loop of `findTool`.
unfoldable pub scan : Dict ToolConfig → String → List Entry → Result ZuulError ToolConfig
scan tools target_url [] = err (unknown_url target_url)
scan tools target_url ((base_url, key) ∷ l) =
    if starts_with target_url base_url
    then elim (get key tools) [ some config ↦ ok config | none ↦ scan tools target_url l ]
    else scan tools target_url l

unfoldable pub find_tool : ToolRegistry → String → Result ZuulError ToolConfig
find_tool r target_url = scan r.tools target_url r.base_urls

unfoldable pub get_tool : ToolRegistry → String → Result ZuulError ToolConfig
unfolding errors new_request_error
get_tool r key = elim (get key r.tools) [
  | none ↦ err (
      new_request_error (concat "Unknown tool: " key) (errors unknown_tool).code
        (errors unknown_tool).http_status (errors unknown_tool).error_type
        (("tool_key", text key) ∷ []))
  | some tool ↦ ok tool
]

-- `Array.from(this.tools.values())`
unfoldable pub list_tools : ToolRegistry → List ToolConfig
list_tools r = map (λ e. e.1) r.tools
