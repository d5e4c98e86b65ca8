-- ===== src/Api/RpcSchema.antt =====
-- The request schema of src/api/handlers/rpc.ts. zod's `safeParse` is written out for it, as zod
-- documents its combinators.
use zuul_proxy.Prelude.{Bool, false, Option, none, some, ◌==◌, if◌then◌else◌}
use zuul_proxy.Prelude.Number.{int}
use zuul_proxy.Prelude.Json.{Json, Fields, number, fraction, text, obj, get_field}

pub data RpcMethod : Type 0 where
  list describe : RpcMethod

-- `RpcRequest`; the id is a text or a number.
pub record RpcRequest : Type 0 where
  pub method : RpcMethod
  pub params : Option Fields
  pub id : Option Json

-- `z.literal('2.0')`
abbrev is_version : Option Json → Bool
is_version (some (text s)) = s == "2.0"
is_version _ = false

-- `z.enum([...])`
abbrev parse_method : Option Json → Option RpcMethod
parse_method (some (text s)) =
    if s == "tools/list" then some list else if s == "tools/describe" then some describe else none
parse_method _ = none

-- `z.record(z.string(), z.unknown()).optional()`
abbrev parse_params : Option Json → Option (Option Fields)
parse_params none = some none
parse_params (some (obj fs)) = some (some fs)
parse_params _ = none

-- `z.union([z.string(), z.number()]).optional()`
abbrev parse_id : Option Json → Option (Option Json)
parse_id none = some none
parse_id (some (text s)) = some (some (text s))
parse_id (some (number (int n))) = some (some (number (int n)))
parse_id (some (fraction s)) = some (some (fraction s))
parse_id _ = none

-- `RpcRequestSchema.safeParse`; `none` is a failure.
unfoldable pub parse_request : Json → Option RpcRequest
unfolding get_field
parse_request (obj fs) =
    if is_version (get_field "jsonrpc" fs)
    then elim (parse_method (get_field "method" fs)) [
      | none ↦ none
      | some method ↦ elim (parse_params (get_field "params" fs)) [
        | none ↦ none
        | some params ↦ elim (parse_id (get_field "id" fs)) [
          | none ↦ none
          | some id ↦ some (record { method = method; params = params; id = id })
        ]
      ]
    ]
    else none
parse_request _ = none
