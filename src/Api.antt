-- ===== src/Api.antt =====
-- src/api/: the middleware, the handlers and their composition.
pub mod Context
pub mod Signature
pub mod Rbac
pub mod Forward
pub mod Audit
pub mod RpcSchema
pub mod Rpc
pub mod Admin
pub mod Pipeline
