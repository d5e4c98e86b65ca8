-- ===== src/Auth.antt =====
-- src/auth/: the type guards and the verification of signed requests.
pub mod Guards
pub mod Signature
pub mod Acceptance
pub mod Replay
pub mod Payload
