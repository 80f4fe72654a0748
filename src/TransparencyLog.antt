-- ===== src/TransparencyLog.antt =====
-- src/transparency_log/log.rs: the log of what was published and of the nodes that may publish.
pub mod Types
pub mod Database
pub mod Writing
pub mod Reading
pub mod Authorized
