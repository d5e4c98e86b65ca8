-- ===== src/Rbac.antt =====
-- src/rbac/: actions from methods, and the permission cache.
pub mod Permission
pub mod Cache
pub mod Contract
