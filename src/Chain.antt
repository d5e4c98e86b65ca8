-- ===== src/Chain.antt =====
-- src/chain/: the drivers for the chains, and the choice between them.
pub mod Roles
pub mod Evm
pub mod Hedera
pub mod Local
pub mod Factory
pub mod Registered
pub mod Commands
pub mod Searching
