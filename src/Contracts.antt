-- ===== src/Contracts.antt =====
-- contracts/: the two Solidity contracts.
pub mod Rbac
pub mod Audit
