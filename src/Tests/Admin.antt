-- ===== src/Tests/Admin.antt =====
-- The admin routes at concrete requests.
use zuul_proxy.Prelude.{
  String, ◌≡◌, ◌↔◌, ◌⊎◌, inl, refl, some, none, Option, true, false, [], ◌∷◌, ◌==◌, if◌then◌else◌,
}
use zuul_proxy.Prelude.Number.{nat}
use zuul_proxy.Prelude.Json.{Json, text, obj, field, end}
use zuul_proxy.Prelude.Dict.{get, delete}
use zuul_proxy.Prelude.Text.{is_hex, matches}
use zuul_proxy.Types.{Role, SignedRequest, ok, read}
use zuul_proxy.Proxy.ActionMapper.{infer_action}
use zuul_proxy.Proxy.Registry.{find_tool, scan}
use zuul_proxy.Rbac.Cache.{PermissionCache, convert_to_role_with_permissions, invalidate}
use zuul_proxy.Audit.Contract.{Written, thrown}
use zuul_proxy.Api.Context.{Context, new_context, proceed}
use zuul_proxy.Api.Rbac.{authorise, revoked_flag}
use zuul_proxy.Api.Admin.Search.{
  AuditSearchParams, ChainEntry, absent, Query, Answer, entries, perform_audit_search,
}
use zuul_proxy.Api.Admin.Search.Paging.{with_query, perform_audit_search-with_query}
use zuul_proxy.Api.Admin.Revoke.{
  Environment, Viem, is_address, signer_key, with_account, submit, direct, perform_emergency_revoke,
}
use zuul_proxy.Api.Admin.Revoke.Effect.{IsAllowed, perform_emergency_revoke_ok_iff}
use zuul_proxy.Api.Admin.Revoke.Served.{authorise_revoked}
use zuul_proxy.Api.Admin.Routes.{localhost_only, revoke_route}
use zuul_proxy.Api.Admin.Routes.Access.{IsNamed, IsRefused, revoke_route_cases}
use zuul_proxy.Tests.Data.{agent, registry, reader, github}
use zuul_proxy.Tests.Codec.{crypto}

abbrev pub environment : Environment
environment = record {
  hardhat_signer_key = none;
  proxy_signer_key = some "0xkey";
  rbac_contract_address = some "0xrbac";
}

-- A chain on which every transaction succeeds.
abbrev pub viem : Viem
viem = record {
  private_key_to_account = λ key. some "0xaccount";
  get_address = λ s. some s;
  write_contract = λ account contract who. some "0xtx";
}

abbrev fallback : String → String → Written
fallback _ _ = thrown "unused"

abbrev pub held : PermissionCache
unfolding convert_to_role_with_permissions
held = record {
  cache =
      (agent, record { role = convert_to_role_with_permissions reader; expires_at = 2000000 }) ∷ [];
  ttl_seconds = 300;
}

abbrev pub spare : PermissionCache
spare = record { cache = []; ttl_seconds = 300 }

perform_emergency_revoke_ok_iff_example :
    ((perform_emergency_revoke environment viem fallback agent (some held)).0 ≡ ok "0xtx")
    ↔ IsAllowed agent (some held) environment viem fallback "0xtx"
perform_emergency_revoke_ok_iff_example =
    perform_emergency_revoke_ok_iff agent (some held) environment viem fallback "0xtx"

abbrev inactive : Role
inactive = record { id = "0x1"; name = "reader"; permissions = []; is_active = false }

-- The agent's address in another case.
abbrev pub spelled : String
spelled = "0x00112233445566778899AABBCCDDEEFF00112233"

abbrev signed : SignedRequest
signed = record {
  agent_address = agent;
  signature = "0xgood";
  nonce = "n1";
  timestamp = nat 1000;
  method = "GET";
  target_url = "https://api.github.com/users";
}

authorise_revoked_example :
    (next : Context) × ((authorise registry 1000000 1000001 1000
        (λ n. ok inactive)
        (new_context "r1")
        spare
        agent
        signed).0
      ≡ proceed next)
    × (next.agent_revoked ≡ some revoked_flag)
unfolding perform_emergency_revoke is_address matches is_hex signer_key with_account submit direct
    invalidate delete infer_action find_tool scan held get
authorise_revoked_example =
    authorise_revoked environment viem fallback agent "0xtx" held spare registry 1000000 1000001
      1000 (λ n. ok inactive) inactive (new_context "r1") signed read github refl (inl refl) refl
      refl refl

abbrev named : Json
named = obj (field "agent_address" (text agent) end)

revoke_route_cases_example :
    ((localhost_only (some "localhost:8080") ≡ true)
      × ((v : Json) × (some named ≡ some v)
          × IsNamed "r1" 1000 environment viem fallback (some held) v (
              revoke_route "r1" 1000 environment viem fallback
                (some "localhost:8080")
                (some named)
                (some held))))
    ⊎ IsRefused "r1" 1000 environment viem fallback (some held) (
        revoke_route "r1" 1000 environment viem fallback
          (some "localhost:8080")
          (some named)
          (some held))
revoke_route_cases_example =
    revoke_route_cases "r1" 1000 environment viem fallback (some held) (some "localhost:8080")
      (some named)

-- The parameters of a search for an agent.
abbrev query : String → Option String
query k = if k == "agent" then some agent else none

abbrev pub params : AuditSearchParams
params = record {
  agent = some agent;
  start_time = none;
  end_time = none;
  offset = nat 0;
  limit = nat 50;
  decrypt = false;
}

abbrev row : ChainEntry
row = record { agent = agent; timestamp = 1001; payload_hash = "0x4"; encrypted_payload = absent }

abbrev chain_call : Query → Answer
chain_call q = entries (row ∷ row ∷ [])

perform_audit_search-with_query_example :
    perform_audit_search crypto [] chain_call (record params { offset = nat 1; limit = nat 1 })
    ≡ with_query
        (record params { offset = nat 1; limit = nat 1 })
        (perform_audit_search crypto [] chain_call params)
perform_audit_search-with_query_example =
    perform_audit_search-with_query crypto [] chain_call params (nat 1) (nat 1)
