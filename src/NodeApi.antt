-- ===== src/NodeApi.antt =====
-- src/node_api: the HTTP interface of a node, with the errors of src/docker/error_util.rs.
pub mod Errors
pub mod Requests
pub mod Handlers
pub mod Routes
