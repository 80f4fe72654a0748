-- ===== src/Handlers.antt =====
-- src/docker/v2/handlers and src/java/maven2/handlers: what package managers ask of a node.
pub mod Maven
pub mod Docker
