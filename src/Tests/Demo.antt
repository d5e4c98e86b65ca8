-- ===== src/Tests/Demo.antt =====
-- A call of the client at concrete data.
use zuul_proxy.Prelude.{String, ◌≡◌, refl, some, [], arith}
use zuul_proxy.Prelude.Dict.{get, set}
use zuul_proxy.Prelude.Text.{is_hex, matches}
use zuul_proxy.Types.{HttpMethod, read}
use zuul_proxy.Auth.Guards.{is_agent_address}
use zuul_proxy.Custody.{get_key, inject, inject_pieces, split_colon}
use zuul_proxy.Proxy.ActionMapper.{infer_action}
use zuul_proxy.Proxy.Registry.{find_tool, scan}
use zuul_proxy.Proxy.Executor.{build_call}
use zuul_proxy.Rbac.Cache.{
  convert_to_role_with_permissions, get_role, store, read_from_chain_with_retry, attempts_from,
  add_permissions, add_all, includes,
}
use zuul_proxy.Api.Signature.{one_line}
use zuul_proxy.Api.Pipeline.{handle}
use zuul_proxy.Demo.Agent.{Account}
use zuul_proxy.Demo.Accepted.{IsClient, sent}
use zuul_proxy.Demo.Forwarded.{IsPermitted, request, call_tool_forwarded}
use zuul_proxy.Tests.Data.{agent, github, reader, server, platform, run_with, shared}

abbrev account : Account
account = record { address = agent; sign_message = λ payload. "0xgood" }

abbrev encode : String → String
encode url = url

client :
    IsClient platform.recover platform.decode account encode HttpMethod.get
      "https://api.github.com/users" "n1" "" 1000000 []
unfolding is_agent_address matches is_hex one_line
client = record {
  address = refl;
  recovered = refl;
  signature = λ h. absurd (cc);
  nonce_filled = λ h. absurd (cc);
  encoded = λ h. absurd (cc);
  line = refl;
  decoded = refl;
}

permitted :
    IsPermitted server platform
      (run_with reader)
      account
      encode
      HttpMethod.get
      "https://api.github.com/users"
      "n1"
      ""
      1000000
      []
      shared
      "secret"
unfolding infer_action find_tool scan get_role read_from_chain_with_retry attempts_from store get
    get_key inject inject_pieces split_colon convert_to_role_with_permissions add_permissions
    add_all includes set
permitted = record {
  action = read;
  tool = github;
  role = convert_to_role_with_permissions reader;
  handle = "vault:github";
  inferred = refl;
  found = refl;
  named = λ h. absurd (cc);
  looked_up = refl;
  active = refl;
  permitted = refl;
  held = refl;
  injected = refl;
}

call_tool_forwarded_example :
    (handle server platform
      (run_with reader)
      (sent platform.recover platform.decode account encode HttpMethod.get
        "https://api.github.com/users" "n1" "" 1000000 [])
      shared).call
    ≡ some (
        build_call server.timeouts
          (request server platform
            (run_with reader)
            account
            encode
            HttpMethod.get
            "https://api.github.com/users"
            "n1"
            ""
            1000000
            [])
          "secret")
unfolding get
call_tool_forwarded_example =
    call_tool_forwarded server platform (run_with reader) account encode HttpMethod.get
      "https://api.github.com/users" "n1" "" 1000000 [] client shared "secret" refl
      (omega arith, omega arith) permitted
