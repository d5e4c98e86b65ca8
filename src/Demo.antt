-- ===== src/Demo.antt =====
-- demo/: the client.
pub mod Agent
pub mod Accepted
pub mod Forwarded
pub mod Answer
pub mod Listed
