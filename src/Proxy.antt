-- ===== src/Proxy.antt =====
-- src/proxy/: the tool registry, the action mapper and the executor.
pub mod Registry
pub mod ActionMapper
pub mod Executor
