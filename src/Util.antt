-- ===== src/Util.antt =====
-- src/util: what the other parts share.
pub mod Keypair
