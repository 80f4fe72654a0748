-- ===== src/BuildService.antt =====
-- src/build_service: how an authorised node has packages built and takes in what was built.
pub mod Types
pub mod Names
pub mod Endpoints
pub mod Service
pub mod EventLoop
