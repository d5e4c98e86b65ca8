-- ===== src/System.antt =====
-- The whole server over its role contract: requests to `/forward/*`, revocations, transactions of
-- others, and what runs in the background, in any order (src/api/server.ts, src/rbac/cache.ts,
-- src/api/handlers/admin.ts, contracts/RBAC.sol).
pub mod Cache
pub mod Revoked
use zuul_proxy.Prelude.{
  ℕ, String, ◌≡◌, ◌≢◌, ◌⊎◌, Bool, List, [], ◌∷◌, ◌++◌, Option, none, some, ◌==◌, if◌then◌else◌,
}
use zuul_proxy.Types.{Role, Result, ok, err}
use zuul_proxy.Errors.{ZuulError}
use zuul_proxy.Auth.Signature.{NonceValidator}
use zuul_proxy.Audit.Queue.{World}
use zuul_proxy.Audit.Contract.{Written}
use zuul_proxy.Chain.Hedera.{HederaChainDriver, get_role_for_agent}
use zuul_proxy.Rbac.Cache.{RoleWithPermissions, PermissionCache, read_from_chain_with_retry, store}
use zuul_proxy.Rbac.Cache.Reads.{Fails}
use zuul_proxy.Api.Context.{HttpRequest, Context, new_context, proceed}
use zuul_proxy.Api.Signature.{signature_middleware}
use zuul_proxy.Api.Pipeline.{Server, Platform, Run, Shared, handle}
use zuul_proxy.Api.Admin.Revoke.{Environment, Viem, perform_emergency_revoke}
use zuul_proxy.Contracts.Rbac.{RbacContract, get_agent_role}
use zuul_proxy.Contracts.Rbac.History.{Transaction, set_role, revoke, attempt, or_same}

-- A lookup of the permission cache that has the chain's answer and has not stored it yet.
pub record Lookup : Type 0 where
  pub agent : String
  pub answer : Result ZuulError RoleWithPermissions

pub record System : Type 0 where
  pub shared : Shared
  pub contract : RbacContract
  pub lookups : List Lookup

-- A transaction that sets no role of the agent with an address.
abbrev pub IsSilent : String → Transaction → Type 0
IsSilent a (set_role sender b role_id) = b ≢ a
IsSilent a (revoke sender b) = Unit

-- What is fixed: the server, what it calls, its driver, and viem. `encode` is `getAddress`: the
-- address of a text in checksum form, `none` where it throws; the contract is the one at
-- `deployed`.
pub record Setting : Type 0 where
  pub server : Server
  pub platform : Platform
  pub driver : HederaChainDriver
  pub keccak : String → String
  pub to_hex_32 : String → Result String String
  pub encode : String → Option String
  pub deployed : String

module _ (g : Setting) where
  -- `getAgentRole` of a state of the contract, as viem reads it. A call of another address fails: no
  -- role contract answers there.
  unfoldable pub read_contract : RbacContract → String → String → Result String (String × Bool)
  unfolding get_agent_role
  read_contract c contract agent =
      if contract == g.deployed
      then (elim (g.encode agent) [
        | none ↦ err "Address is invalid"
        | some a ↦ ok (get_agent_role a c)
      ])
      else err "The contract function returned no data"

  -- The role that the driver reads for an agent in a state of the contract.
  unfoldable pub chain_role : RbacContract → String → Result String Role
  unfolding read_contract get_role_for_agent
  chain_role c agent = get_role_for_agent g.keccak g.to_hex_32 (read_contract c) g.driver agent

  -- Every read gives what the contract has for the agent, or fails.
  abbrev pub IsRead : RbacContract → String → (ℕ → Result String Role) → Type 0
  IsRead c agent outcomes = (n : ℕ) → (outcomes n ≡ chain_role c agent) ⊎ Fails (outcomes n)

  -- The reads of a run are about the agent that its request is verified for.
  abbrev pub ReadsFor : Run → HttpRequest → System → Type 0
  ReadsFor run req s =
      (c : Context) (agent : String)
      → (signature_middleware g.platform.recover g.platform.decode run.verify_ms run.reply_s req
          (new_context run.request_id) s.shared.nonces).0
        ≡ proceed c
      → c.recovered_address ≡ some agent
      → IsRead s.contract agent run.outcomes

  -- One step. `revoked` is the admin route's answer with success, by whatever viem and the driver
  -- did: it does not wait for the block of its transaction, so the transaction is a step of its own.
  -- `transact` is about every sender; `background` stands for the sweeps of the nonces and the work
  -- on the audit queue, which touch nothing else.
  pub data Step (s : System) : System → Type 0 where
    request :
        (run : Run) (req : HttpRequest)
        → ReadsFor run req s
        → Step s (record s { shared = (handle g.server g.platform run req s.shared).shared })
    look_up :
        (agent : String) (outcomes : ℕ → Result String Role)
        → IsRead s.contract agent outcomes
        → Step s (record s {
          lookups =
              (record { agent = agent; answer = read_from_chain_with_retry outcomes }) ∷ s.lookups;
        })
    settle :
        (later : ℕ) (before after : List Lookup) (l : Lookup)
        → s.lookups ≡ before ++ l ∷ after
        → Step s (record s {
          shared = record s.shared { cache = (store later l.agent l.answer s.shared.cache).1 };
          lookups = before ++ after;
        })
    revoked :
        (env : Environment) (viem : Viem) (fallback : String → String → Written) (agent tx : String)
        (cache : PermissionCache)
        → perform_emergency_revoke env viem fallback agent (some s.shared.cache)
          ≡ (ok tx, some cache)
        → Step s (record s { shared = record s.shared { cache = cache } })
    transact :
        (t : Transaction)
        → Step s (record s { contract = or_same s.contract (attempt t s.contract) })
    background :
        (nonces : NonceValidator) (audit : World)
        → Step s (record s { shared = record s.shared { nonces = nonces; audit = audit } })

  -- The step sets no role of the agent with an address.
  abbrev pub IsQuiet : String → {s t : System} → Step s t → Type 0
  IsQuiet a (request run req h) = Unit
  IsQuiet a (look_up agent outcomes h) = Unit
  IsQuiet a (settle later before after l e) = Unit
  IsQuiet a (revoked env viem fallback agent tx cache e) = Unit
  IsQuiet a (transact t) = IsSilent a t
  IsQuiet a (background nonces audit) = Unit

  -- Any number of steps that set no role of the agent.
  pub data Later (a : String) (s : System) : System → Type 0 where
    here : Later a s s
    next : {t u : System} → Later a s t → (st : Step t u) → IsQuiet a st → Later a s u
