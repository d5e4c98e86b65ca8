-- ===== src/Lib.antt =====
-- The Zuul proxy, which forwards the signed HTTP requests of agents to upstream tools: it verifies
-- who signed a request, asks a role contract what the agent may do, puts the tool's API key into
-- the call, and records the request for an audit contract.
--
-- Parts, by file (paths are from the repository's root):
--   Prelude         tests, lists, JavaScript numbers (integers and NaN), maps with text keys, texts,
--                   JSON values
--   Types, Config   src/types.ts and src/config/types.ts: the shared domain types. Config.Schema is
--                   the schema of src/config/schema.ts (Inversion, Valid and Whole), Config.Loader
--                   src/config/loader.ts (Substitution, Variables, Loaded)
--   Errors          src/errors.ts: the error classes, the error table and the factories; Table
--                   has their theorems
--   Auth.Guards     src/auth/guards.ts
--   Auth.Signature  src/auth/signature.ts: `NonceValidator` is the map of used nonces;
--                   `verify_signed_request` passes it on as a state. Validators is about one nonce,
--                   Auth.Acceptance about one request, Auth.Replay about verifications and sweeps
--                   in any order, Auth.Payload about the signed text
--   Proxy           src/proxy/: Registry is `ToolRegistry` (Sorting and Longest have its theorems),
--                   ActionMapper the actions of methods, Executor one upstream call
--   Custody         src/custody/: `KeyVault`, its handles, and the loading of keys
--   Rbac            src/rbac/: Permission is the second copy of the mapping of methods; Cache is
--                   `PermissionCache` over the chain (Reads, Grants and Staleness); Contract has the
--                   stubs of `RBACContractReader`
--   Audit           src/audit/: Queue is `AuditQueue` (Conservation, Flushing, Drain), Payload the
--                   record of a request and its hashes, Encryption `EncryptionService` (RoundTrip),
--                   Contract the writer of entries
--   Chain           src/chain/: Evm, Hedera and Local are the drivers, Roles what the first two
--                   share, Factory their choice. Registered is about the roles that they read,
--                   Commands about the mock, Searching about a search over the driver Evm
--   Api             src/api/: Context is what the middleware share; Signature, Rbac, Audit and
--                   Forward are the middleware and the handler; Pipeline composes them as the route
--                   /forward/* of src/api/server.ts does. Pipeline.Stages, Granted and Forwarded say
--                   what one stage passes on, Passing and Authorisation join them, and Settled,
--                   Refusal and Accounting follow the reply and the audit entry.
--                   RpcSchema and Rpc are the handler of /rpc (Listing, Describing). Admin.Search and
--                   Admin.Revoke are src/api/handlers/admin.ts (Params, Paging and Recovered; Effect
--                   and Served), Admin.Routes their routes, the error handler, the health check and
--                   the shutdown (Access)
--                   Revoke.Simulated is about a revocation over the driver Evm, Search.OnChain and
--                   Search.Logged follow a search to the audit contract
--   Contracts       contracts/RBAC.sol and contracts/Audit.sol: a contract is its storage, a
--                   transaction a function to the next storage (History; Index and Ranges for the
--                   two kinds of pages)
--   System          the server over the role contract: one step is a request, a lookup or its store,
--                   an answer to a revocation, a transaction, or background work. Cache says what a
--                   request stores, Revoked, Revoked.Steps and Revoked.Final follow a revoked agent
--   Logging         src/logging.ts
--   Scripts         scripts/: RegisterAgents (Held, Registered), SetupAgents and SearchAudit (Query,
--                   Accepted)
--   Main            src/index.ts: what the process is started with (Ready)
--   Demo            demo/agent.ts: the requests of the client, and Answer how it reads the answers;
--                   Accepted and Forwarded follow a call through the proxy, Listed a list of tools
--   Tests           runs on concrete data
--
-- How it is modelled. State is passed explicitly: a method of a class that changes its object is a
-- function from the state to a result and the next state. An error result is `err`, and a throw is
-- `none`, or an `err` with its message. `Date.now()` is an argument, in milliseconds. Where a
-- function awaits, what runs between two awaits is one step: the running flush of the audit queue
-- is part of its state, and the lookup and the store of a cache read are two steps. The component
-- theorems are about every order of such steps; Pipeline is about one request, whose stages find
-- the shared state as other requests have left it. System has a request as one step, and keeps the
-- lookups that are under way beside it. A Solidity mapping is a map whose missing keys are zero, and
-- a call that reverts is `none`; addresses are the texts that viem decodes them as. System has one
-- role contract, at one address; a read of another address fails. A revocation is submitted by one
-- step and executed by another.
--
-- Fuel: `emit`, `show_from` and the like run on the number itself; `run_flush` is given three answers
-- for each entry, which is what the three attempts of an entry take; `drain` has the ten rounds of
-- the source. Integers are exact: times are far below 2^53.
--
-- Parameters stand for code that is not in src/: viem, node's hashes, cipher and buffers,
-- `decodeURIComponent`, `URLSearchParams`, `JSON.stringify`, `fetch` with its body readers,
-- `process.env`, the YAML parser, zod's check of a URL, random numbers, and hono's answer for a
-- handler that returns nothing. zod's other combinators are written out as it documents them. A
-- part also takes others as parameters: the permission cache the answers of the chain driver, the
-- queue those of the contract writer, the audit middleware the encryption, and the audit search
-- the entries that the contract gives.
--
-- Not modelled: what is printed, delays between retries, timers as such, the registration of signal
-- handlers, the start of the HTTP server, events of the contracts, pino and the options that a
-- caller may give it, demo/scenario.ts, the scripts that deploy or inspect, a signer key that gives
-- no account when the Hedera driver is built, and the optional proxy key of the audit middleware,
-- which the server never passes.
pub mod Prelude
pub mod Types
pub mod Errors
pub mod Main
pub mod Auth
pub mod Chain
pub mod Config
pub mod Proxy
pub mod Custody
pub mod Contracts
pub mod System
pub mod Scripts
pub mod Logging
pub mod Demo
pub mod Rbac
pub mod Audit
pub mod Api
pub mod Tests
