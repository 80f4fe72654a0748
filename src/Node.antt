-- ===== src/Node.antt =====
-- pyrsia_node/src: the handlers of network/handlers.rs and the loop of main.rs, which hands what the
-- network asks of the node to its services.
pub mod Handlers
pub mod Events
pub mod Services
