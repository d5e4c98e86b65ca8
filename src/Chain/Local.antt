-- ===== src/Chain/Local.antt =====
-- src/chain/local.ts: the mock driver. `fraction` is `Math.random().toString(16).slice(2)`.
use zuul_proxy.Prelude.{ℕ, String, Bool, false, [], ◌∷◌, Option, none, some, if◌then◌else◌}
use zuul_proxy.Prelude.Dict.{Dict, get, set}
use zuul_proxy.Prelude.Text.{concat, repeat}
use zuul_proxy.Prelude.Json.{Json, obj, end, is_truthy}
use zuul_proxy.Types.{Role, Result, ok, err, text}
use zuul_proxy.Errors.{ZuulError, new_service_error, minus}
use zuul_proxy.Chain.Evm.{pad_start}

pub record LocalChainDriver : Type 0 where
  pub contract_state : Dict Json
  pub role_state : Dict Role
  pub should_fail : Bool

unfoldable pub new_local_chain_driver : LocalChainDriver
new_local_chain_driver = record { contract_state = []; role_state = []; should_fail = false }

abbrev pub chain_id : ℕ
chain_id = 31337

unavailable : ZuulError
unfolding new_service_error
unavailable =
    new_service_error "Mock blockchain unavailable (test mode)" (minus 32022) 503
      "service/unavailable" (("reason", text "Local mock driver configured to fail") ∷ [])

-- `result || {}`
abbrev or_empty_object : Option Json → Json
or_empty_object none = obj end
or_empty_object (some v) = if is_truthy v then v else obj end

unfoldable pub call_contract : LocalChainDriver → String → String → Result ZuulError Json
unfolding unavailable get
call_contract d contract_address function_name =
    if d.should_fail
    then err unavailable
    else ok (
        or_empty_object (get (concat contract_address (concat ":" function_name)) d.contract_state))

unfoldable pub write_contract : LocalChainDriver → String → Result ZuulError String
unfolding unavailable
write_contract d fraction =
    if d.should_fail then err unavailable else ok (concat "0x" (pad_start 64 fraction))

-- The role of an agent that has none.
abbrev pub default_role : Role
default_role = record {
  id = concat "0x" (repeat 64 "0");
  name = "Default";
  permissions = [];
  is_active = false;
}

abbrev pub or_default : Option Role → Role
or_default none = default_role
or_default (some role) = role

-- An `err` is the message of what is thrown.
unfoldable pub get_role_for_agent : LocalChainDriver → String → Result String Role
unfolding get
get_role_for_agent d agent =
    if d.should_fail
    then err "Mock blockchain unavailable (test mode)"
    else ok (or_default (get agent d.role_state))

unfoldable pub set_failure : Bool → LocalChainDriver → LocalChainDriver
set_failure should_fail d = record d { should_fail = should_fail }

unfoldable pub set_role_for_agent : String → Role → LocalChainDriver → LocalChainDriver
unfolding set
set_role_for_agent agent role d = record d { role_state = set agent role d.role_state }

unfoldable pub reset : LocalChainDriver → LocalChainDriver
reset d = record d { contract_state = []; role_state = []; should_fail = false }
