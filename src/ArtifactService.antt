-- ===== src/ArtifactService.antt =====
-- src/artifact_service: the store of artifacts, and how a node gets an artifact or has it built.
pub mod Storage
pub mod Service
