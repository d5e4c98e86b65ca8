-- ===== src/Tests.antt =====
-- Concrete runs of the model, and the theorems at concrete inputs.
mod Data
mod Auth
mod Proxy
mod Rbac
mod Audit
mod Custody
mod Pipeline
mod Codec
mod Demo
mod Chain
mod Config
mod Logging
mod Rpc
mod Admin
mod Encryption
mod System
mod Contracts
mod Scripts
