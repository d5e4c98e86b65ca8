-- ===== src/Tests/Rpc.antt =====
-- The RPC handler at concrete requests.
use zuul_proxy.Prelude.{String, ◌≡◌, ◌↔◌, refl, some, none}
use zuul_proxy.Prelude.Json.{Json, text, obj, field, end, get_field, has_no_text}
use zuul_proxy.Types.{ok, err, Result}
use zuul_proxy.Errors.{ZuulError}
use zuul_proxy.Rbac.Cache.{RoleWithPermissions, unavailable}
use zuul_proxy.Api.Rpc.{value, param, rpc_handler, dispatch, tools_describe, find_described}
use zuul_proxy.Api.RpcSchema.{RpcRequest, RpcMethod, parse_request}
use zuul_proxy.Api.Rpc.Describing.{Breaks, rpc_internal_iff}
use zuul_proxy.Tests.Data.{registry, reader, cache}

abbrev body : String → String → String → Json
body method name v = obj (
    field "jsonrpc" (text "2.0") (
      field "method" (text method)
        (field "params" (obj (field name (text v) end)) (field "id" (text "1") end))))

abbrev request : RpcMethod → String → String → RpcRequest
request method name v = record {
  method = method;
  params = some (field name (text v) end);
  id = some (text "1");
}

abbrev pub other_role : Json → Result ZuulError RoleWithPermissions
other_role v = err (unavailable none)

abbrev pub other_text : Json → String
other_text v = "[object Object]"

-- A key whose `toString` is no function.
abbrev unprintable : Json
unprintable = obj (
    field "jsonrpc" (text "2.0") (
      field "method" (text "tools/describe")
        (field "params" (obj (field "tool_key" (obj (field "toString" (text "x") end)) end)) end)))

rpc_internal_iff_example :
    ((rpc_handler registry 295 other_role other_text "r1" 1000 1000000 1000001
        (λ n. ok reader)
        (value unprintable)
        cache).0.status
      ≡ 500)
    ↔ Breaks registry 295 other_role other_text "r1" 1000 1000000 1000001
        (λ n. ok reader)
        cache
        (value unprintable)
rpc_internal_iff_example =
    rpc_internal_iff registry 295 other_role other_text "r1" 1000 1000000 1000001 (λ n. ok reader)
      cache (value unprintable)

rpc_unprintable :
    (rpc_handler registry 295 other_role other_text "r1" 1000 1000000 1000001
      (λ n. ok reader)
      (value unprintable)
      cache).0.status
    ≡ 500
unfolding rpc_handler parse_request get_field param dispatch tools_describe has_no_text
    find_described
rpc_unprintable = refl
