-- ===== src/Tests/Scripts.antt =====
-- The scripts at concrete configurations.
use zuul_proxy.Prelude.{String, ◌≡◌, refl, false, true, if◌then◌else◌, some, Option, [], ◌∷◌, ◌==◌}
use zuul_proxy.Prelude.Dict.{set}
use zuul_proxy.Prelude.Number.{ℤ, pos}
use zuul_proxy.Prelude.ParseInt.{parse_int_decimal}
use zuul_proxy.Prelude.Text.{codes_eq, lower}
use zuul_proxy.Types.{ok, read}
use zuul_proxy.Config.{RoleConfig}
use zuul_proxy.Chain.Roles.{active_role}
use zuul_proxy.Chain.Hedera.{get_role_for_agent, role_hash}
use zuul_proxy.Chain.Registered.{IsFirst}
use zuul_proxy.Contracts.Rbac.{RbacContract, set_agent_role, get_agent_role}
use zuul_proxy.Api.Admin.Search.{parse_audit_search_params}
use zuul_proxy.Scripts.RegisterAgents.{AgentInfo, register_from, hardhat_test_accounts}
use zuul_proxy.Scripts.RegisterAgents
use zuul_proxy.Scripts.RegisterAgents.Held.{IsDistinct}
use zuul_proxy.Scripts.RegisterAgents.Registered.{get_role_for_agent-registered}
use zuul_proxy.Scripts.SearchAudit
use zuul_proxy.Scripts.SearchAudit.{Args, SearchOptions, search, time_range, parse_date, with_limit}
use zuul_proxy.Scripts.SearchAudit.Query.{params, query}
use zuul_proxy.Scripts.SearchAudit.Accepted.{parse_audit_search_params-main}
use zuul_proxy.Tests.Data.{agent, reader}
use zuul_proxy.Tests.Chain.{keccak, to_hex_32, hedera}

abbrev args : Args
args = record {
  agent = some agent;
  from = some "2024-01-01";
  to = some "2024-01-02";
  decrypt = true;
  limit = "10";
  proxy_url = "http://localhost:8080";
  help = false;
}

-- The times of the two dates.
abbrev get_time : String → Option ℤ
get_time s = if s == "2024-01-01" then some (pos 1704067200000) else some (pos 1704153600000)

abbrev options : SearchOptions
options = record {
  agent = some agent;
  start_time = some (pos 1704067200);
  end_time = some (pos 1704153600);
  decrypt = true;
  limit = pos 10;
  proxy_url = "http://localhost:8080";
}

parse_audit_search_params-main_example :
    parse_audit_search_params (query options) ≡ ok (params options)
unfolding SearchAudit.main with_limit time_range parse_date parse_int_decimal
parse_audit_search_params-main_example =
    parse_audit_search_params-main get_time args options refl tt tt

abbrev reader_config : RoleConfig
reader_config = record {
  id = "0x1";
  name = "reader";
  permissions = record { tool = "github"; actions = read ∷ [] } ∷ [];
}

abbrev key : String
key = "0xac0974bec39a17e36ba4a6b4d238ff944bacb478cbed5efcae784d7bf4f2ff80"

-- The address of an account is its key.
abbrev account : String → String
account s = s

abbrev before : RbacContract
before = record { proxy = key; agent_roles = [] }

abbrev after : RbacContract
after = record { proxy = key; agent_roles = (key, "0x0x1") ∷ [] }

distinct : IsDistinct account hardhat_test_accounts
distinct = (
  (refl, (refl, (refl, (refl, (refl, tt))))),
  (
    (refl, (refl, (refl, (refl, tt)))),
    ((refl, (refl, (refl, tt))), ((refl, (refl, tt)), ((refl, tt), (tt, tt)))),
  ),
)

first : IsFirst (role_hash keccak to_hex_32) "0x0x1" (reader ∷ []) (active_role reader_config)
unfolding active_role role_hash codes_eq lower
first = record { before = []; after = []; split = refl; others = tt; found = ("0x0x1", refl, refl) }

get_role_for_agent-registered_example :
    get_role_for_agent keccak to_hex_32 (λ contract who. ok (get_agent_role who after)) hedera key
    ≡ ok (active_role reader_config)
unfolding RegisterAgents.main register_from set_agent_role set role_hash
get_role_for_agent-registered_example =
    get_role_for_agent-registered account keccak to_hex_32
      (λ contract who. ok (get_agent_role who after)) hedera (some "0xrbac") (some "0xaudit")
      (reader_config ∷ []) before after
      (record {
        address = key;
        hardhat_account_index = 0;
        role = "reader";
        permissions = reader_config.permissions;
      }
        ∷ [])
      [] [] key "0x0x1" reader_config refl distinct refl refl refl refl refl first
