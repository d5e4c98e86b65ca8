-- ===== src/Tests/Data.antt =====
-- The request, the tools and the server of the tests.
use zuul_proxy.Prelude.{String, true, false, List, [], ◌∷◌, Option, none, some, ◌==◌, if◌then◌else◌}
use zuul_proxy.Prelude.Dict.{Dict}
use zuul_proxy.Types.{Role, read, ok}
use zuul_proxy.Config.{ToolConfig}
use zuul_proxy.Auth.Signature.{Payload, NonceValidator}
use zuul_proxy.Proxy.Registry.{ToolRegistry}
use zuul_proxy.Proxy.Executor.{UpstreamCall, aborted}
use zuul_proxy.Rbac.Cache.{PermissionCache}
use zuul_proxy.Audit.Queue.{World}
use zuul_proxy.Audit.Payload.{absent}
use zuul_proxy.Api.Context.{HttpRequest}
use zuul_proxy.Api.Pipeline.{Server, Platform, Run, Shared}

abbrev pub agent : String
agent = "0x00112233445566778899aabbccddeeff00112233"

abbrev pub recover : Payload → String → Option String
recover payload signature = if signature == "0xgood" then some agent else none

abbrev pub github : ToolConfig
github = record {
  key = "github";
  description = "";
  base_url = "https://api.github.com";
  key_ref = "GITHUB_KEY";
  endpoints = [];
}

abbrev pub repos : ToolConfig
repos = record {
  key = "repos";
  description = "";
  base_url = "https://api.github.com/repos";
  key_ref = "REPOS_KEY";
  endpoints = [];
}

abbrev pub tools : List ToolConfig
tools = github ∷ repos ∷ []

abbrev pub registry : ToolRegistry
registry = record {
  tools = ("github", github) ∷ ("repos", repos) ∷ [];
  base_urls = ("https://api.github.com/repos", "repos") ∷ ("https://api.github.com", "github") ∷ [];
}

abbrev pub reader : Role
reader = record {
  id = "0x1";
  name = "reader";
  permissions = record { tool = "github"; actions = read ∷ [] } ∷ [];
  is_active = true;
}

abbrev pub cache : PermissionCache
cache = record { cache = []; ttl_seconds = 300 }

abbrev pub nonces : NonceValidator
nonces = record { nonce_store = []; cleanup_running = true }

abbrev pub queue : World
queue = record {
  store = record {
    queue = [];
    flush_timer = true;
    is_shutting_down = false;
    is_flushing = false;
    failed_entries = [];
  };
  in_flight = [];
  attempt = 0;
  written = [];
}

abbrev pub server : Server
server = record {
  registry = registry;
  vault = record { keys = ("github", "secret") ∷ [] };
  timeouts = record { read_timeout_ms = 30000; write_timeout_ms = 60000 };
  chain_id = 295;
}

abbrev pub platform : Platform
platform = record {
  recover = recover;
  decode = λ s. some s;
  fetch = λ call. aborted;
  audit = record {
    sha256 = λ s. s;
    stringify = λ p. p.id;
    encrypt = λ p. ok p.id;
    serialize = λ b. "";
    unanswered = λ status. (status, "");
  };
}

-- A run in which the chain answers with a role.
abbrev pub run_with : Role → Run
run_with role = record {
  request_id = "r1";
  verify_ms = 1000000;
  now = 1000000;
  later = 1000001;
  reply_s = 1000;
  outcomes = λ n. ok role;
  latency_ms = 5;
  audit = record { random_hex = "00"; now_ms = 1000000; latency_ms = 5; request_body = absent };
}

abbrev pub headers : Dict String
headers =
    ("x-agent-address", agent)
    ∷ ("x-signature", "0xgood")
    ∷ ("x-nonce", "n1")
    ∷ ("x-timestamp", "1000")
    ∷ []

abbrev pub request : String → HttpRequest
request target = record { method = "GET"; path = target; headers = headers; body = "" }

abbrev pub users : HttpRequest
users = request "/forward/https://api.github.com/users"

abbrev pub shared : Shared
shared = record { nonces = nonces; cache = cache; audit = queue }

abbrev pub call : UpstreamCall
call = record {
  method = "GET";
  target_url = "https://api.github.com/users";
  headers =
      ("x-agent-address", agent)
      ∷ ("x-signature", "0xgood")
      ∷ ("x-nonce", "n1")
      ∷ ("x-timestamp", "1000")
      ∷ ("Authorization", "Bearer secret")
      ∷ [];
  body = none;
  timeout_ms = 30000;
}
