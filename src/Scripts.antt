-- ===== src/Scripts.antt =====
-- scripts/: the command-line tools that call the role contract and the proxy.
pub mod RegisterAgents
pub mod SetupAgents
pub mod SearchAudit
