-- ===== src/Tests/Proxy.antt =====
-- The tool registry on two tools, one below the other.
use zuul_proxy.Prelude.{◌≡◌, ◌↔◌, refl, All, Any, false, starts_with}
use zuul_proxy.Prelude.Dict.{get, set}
use zuul_proxy.Types.{read, action_to_methods, ok, err}
use zuul_proxy.Config.{ToolConfig}
use zuul_proxy.Prelude.Text.{js_length}
use zuul_proxy.Proxy.Registry.{find_tool, new_tool_registry, load, sort, insert, scan, unknown_url}
use zuul_proxy.Auth.Guards.{method_text}
use zuul_proxy.Rbac.Permission
use zuul_proxy.Proxy.ActionMapper.{infer_action, infer_action_methods_iff}
use zuul_proxy.Proxy.Registry.Longest.{IsLongest, find_tool-IsLongest, find_tool_unknown_iff}
use zuul_proxy.Tests.Data.{tools, repos, registry}

new_tool_registry_tools : new_tool_registry tools ≡ registry
unfolding new_tool_registry load sort insert set js_length
new_tool_registry_tools = refl

find_tool-IsLongest_example : IsLongest "https://api.github.com/repos/x" tools repos
unfolding new_tool_registry load sort insert find_tool scan set js_length get
find_tool-IsLongest_example =
    find_tool-IsLongest tools "https://api.github.com/repos/x" repos
      (((λ h. absurd (cc)), tt), (tt, tt)) refl

find_tool_unknown_iff_example :
    (find_tool (new_tool_registry tools) "https://example.com"
      ≡ err (unknown_url "https://example.com"))
    ↔ All (λ (t : ToolConfig). starts_with "https://example.com" t.base_url ≡ false) tools
find_tool_unknown_iff_example =
    find_tool_unknown_iff tools "https://example.com" (((λ h. absurd (cc)), tt), (tt, tt))

infer_action_methods_iff_example :
    (infer_action "HEAD" ≡ Permission.infer_action "HEAD")
    × ((infer_action "HEAD" ≡ ok read) ↔ Any (λ m. method_text m ≡ "HEAD") (action_to_methods read))
infer_action_methods_iff_example = infer_action_methods_iff "HEAD" read
