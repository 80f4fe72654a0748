-- ===== src/BuildService/Types.antt =====
-- The data of src/build_service: model.rs, error.rs, mapping/model.rs and the events of event.rs.
use pyrsia.Base.{ℕ, Option, List, Bytes}
use pyrsia.TransparencyLog.Types.{PackageType, TransparencyLogError}
use pyrsia.Network.Types.{PeerId, BuildStatus}
use pyrsia.VerificationService.{BuildResultArtifact}

-- Texts of errors that are only shown are left out.
pub data BuildError : Type 0 where
  build_failure : Bytes → BuildError
  initialization_failed : BuildError
  transparency_log_failure : TransparencyLogError → BuildError
  unauthorized_peer_id : PeerId → BuildError
  artifact_already_exists : BuildError
  invalid_mapping_response : BuildError
  invalid_pipeline_response : BuildError
  mapping_not_found : PackageType → Bytes → BuildError
  mapping_service_endpoint_failure : ℕ → BuildError
  mapping_service_endpoint_request_failure : BuildError
  pipeline_service_endpoint_failure : ℕ → BuildError
  pipeline_service_endpoint_request_failure : BuildError
  build_status_failed : BuildError

pub data SourceRepository : Type 0 where
  git : Bytes → Bytes → SourceRepository

pub record MappingInfo : Type 0 where
  pub package_type : PackageType
  pub package_specific_id : Bytes
  pub source_repository : Option SourceRepository
  pub build_spec_url : Option Bytes

pub record BuildInfo : Type 0 where
  pub id : Bytes
  pub status : BuildStatus

pub data BuildTrigger : Type 0 where
  from_source : BuildTrigger
  verification : PeerId → BuildTrigger

pub record BuildResult : Type 0 where
  pub package_type : PackageType
  pub package_specific_id : Bytes
  pub artifacts : List BuildResultArtifact

-- Channels for answers go by numbers.
pub data BuildEvent : Type 0 where
  build_failed : Bytes → BuildError → BuildEvent
  status_asked : Bytes → ℕ → BuildEvent
  build_asked : PackageType → Bytes → ℕ → BuildTrigger → BuildEvent
  build_succeeded : Bytes → PackageType → Bytes → BuildTrigger → List Bytes → BuildEvent
  build_result : Bytes → BuildTrigger → BuildResult → BuildEvent
