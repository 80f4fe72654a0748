-- ===== src/Blockchain.antt =====
-- The crate blockchain/src.
pub mod Types
pub mod Platform
pub mod Crypto
pub mod Header
pub mod Transaction
pub mod Block
pub mod Chain
pub mod Disk
pub mod Persistence
pub mod Blockchain
