-- ===== src/Network.antt =====
-- src/network: the event loop between a node and libp2p, and the client that hands it commands.
pub mod Types
pub mod Tables
pub mod EventLoop
pub mod Client
pub mod Codecs
