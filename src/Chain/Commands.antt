-- ===== src/Chain/Commands.antt =====
-- The mock driver after any sequence of its commands (src/chain/local.ts).
use zuul_proxy.Prelude.{
  String, ◌≡◌, refl, Bool, false, List, [], ◌∷◌, Option, none, some, ◌==◌, if◌then◌else◌,
}
use zuul_proxy.Prelude.Dict.{get, get-set}
use zuul_proxy.Types.{Role, ok, err}
use zuul_proxy.Chain.Local.{
  LocalChainDriver, new_local_chain_driver, or_default, get_role_for_agent, set_failure,
  set_role_for_agent, reset,
}

pub data Command : Type 0 where
  failure : Bool → Command
  role : String → Role → Command
  restart : Command

abbrev apply : Command → LocalChainDriver → LocalChainDriver
apply (failure b) d = set_failure b d
apply (role agent r) d = set_role_for_agent agent r d
apply restart d = reset d

-- A new driver after commands, the latest one first.
abbrev pub run : List Command → LocalChainDriver
run [] = new_local_chain_driver
run (command ∷ earlier) = apply command (run earlier)

-- The role that the latest command for the agent gave, since the latest reset.
pub assigned : String → List Command → Option Role
assigned agent [] = none
assigned agent (failure b ∷ earlier) = assigned agent earlier
assigned agent (role a r ∷ earlier) = if a == agent then some r else assigned agent earlier
assigned agent (restart ∷ earlier) = none

-- Whether the latest of the commands that decide it lets calls fail.
pub failing : List Command → Bool
failing [] = false
failing (failure b ∷ earlier) = b
failing (role a r ∷ earlier) = failing earlier
failing (restart ∷ earlier) = false

run-assigned :
    (agent : String) (commands : List Command)
    → get agent (run commands).role_state ≡ assigned agent commands
unfolding assigned get new_local_chain_driver set_failure set_role_for_agent reset
run-assigned agent [] = refl
run-assigned agent (failure b ∷ earlier) = run-assigned agent earlier
run-assigned agent (role a r ∷ earlier) =
    rw (get-set a agent r (run earlier).role_state, run-assigned agent earlier) refl
run-assigned agent (restart ∷ earlier) = refl

run-failing : (commands : List Command) → (run commands).should_fail ≡ failing commands
unfolding failing new_local_chain_driver set_failure set_role_for_agent reset
run-failing [] = refl
run-failing (failure b ∷ earlier) = refl
run-failing (role a r ∷ earlier) = run-failing earlier
run-failing (restart ∷ earlier) = refl

-- After any commands to a new mock driver a read of an agent's role throws exactly if the latest of
-- the commands that decide it lets calls fail, and otherwise gives the role that was set last for
-- the agent since the latest reset, or the default role.
pub get_role_for_agent-run :
    (agent : String) (commands : List Command)
    → get_role_for_agent (run commands) agent ≡ (
        if failing commands
        then err "Mock blockchain unavailable (test mode)"
        else ok (or_default (assigned agent commands)))
unfolding get_role_for_agent
get_role_for_agent-run agent commands = rw (run-failing commands, run-assigned agent commands) refl

run-contract_state : (commands : List Command) → (run commands).contract_state ≡ []
unfolding new_local_chain_driver set_failure set_role_for_agent reset
run-contract_state [] = refl
run-contract_state (failure b ∷ earlier) = run-contract_state earlier
run-contract_state (role a r ∷ earlier) = run-contract_state earlier
run-contract_state (restart ∷ earlier) = refl
