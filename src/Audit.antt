-- ===== src/Audit.antt =====
-- src/audit/: the queue of audit entries, their payloads, the encryption and the writer.
pub mod Queue
pub mod Payload
pub mod Encryption
pub mod Contract
