-- ===== src/Api/Admin.antt =====
-- src/api/handlers/admin.ts: the audit search and the emergency revocation, and their routes in
-- src/api/server.ts.
pub mod Search
pub mod Revoke
pub mod Routes
