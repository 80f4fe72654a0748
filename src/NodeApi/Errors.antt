-- ===== src/NodeApi/Errors.antt =====
-- src/docker/error_util.rs: what an error becomes on its way to an HTTP answer. JSON stands for the
-- value that it encodes, and the texts of errors are what `Texts` says.
use pyrsia.Base.{ℕ, Option, none, some, List, [], Bytes}
use pyrsia.TransparencyLog.Types.{TransparencyLogError, node_already_exists}
use pyrsia.Network.Client.{ClientError}
use pyrsia.BuildService.Types.{BuildError, artifact_already_exists}

pub data RegistryErrorCode : Type 0 where
  blob_unknown manifest_unknown : RegistryErrorCode
  bad_request unknown : Bytes → RegistryErrorCode

pub record RegistryError : Type 0 where
  pub code : RegistryErrorCode

pub record ErrorMessage : Type 0 where
  pub code : RegistryErrorCode
  pub message : Bytes

-- `to_string` of the errors
pub record Texts : Type 0 where
  pub build_error_text : BuildError → Bytes
  pub log_error_text : TransparencyLogError → Bytes
  pub client_error_text : ClientError → Bytes

-- `From<BuildError>`
unfoldable pub from_build_error : Texts → BuildError → RegistryError
from_build_error texts artifact_already_exists = record {
  code = bad_request (texts.build_error_text artifact_already_exists);
}
from_build_error texts e = record { code = unknown (texts.build_error_text e) }

-- `From<TransparencyLogError>`
unfoldable pub from_log_error : Texts → TransparencyLogError → RegistryError
from_log_error texts (node_already_exists node_id) = record {
  code = bad_request (texts.log_error_text (node_already_exists node_id));
}
from_log_error texts e = record { code = unknown (texts.log_error_text e) }

-- `From<anyhow::Error>`
unfoldable pub from_client_error : Texts → ClientError → RegistryError
from_client_error texts e = record { code = unknown (texts.client_error_text e) }

-- `warp::Rejection`: what a filter or a handler rejects with; a chain of alternatives collects them.
pub data Rejection : Type 0 where
  not_found method_not_allowed payload_too_large body_deserialize_error : Rejection
  invalid_header : Bytes → Rejection
  custom : RegistryError → Rejection

abbrev pub ok_status : ℕ
ok_status = 200

abbrev pub created : ℕ
created = 201

abbrev pub found : ℕ
found = 302

abbrev pub bad_request_status : ℕ
bad_request_status = 400

abbrev pub not_found_status : ℕ
not_found_status = 404

abbrev pub internal_server_error : ℕ
internal_server_error = 500

-- `err.find` of warp, for the two types that the recovery asks for
pub record Finds : Type 0 where
  pub find_registry_error : List Rejection → Option RegistryError
  pub find_invalid_header : List Rejection → Option Bytes

-- The arms for a `RegistryError` in `custom_recover`
unfoldable pub registry_answer : RegistryErrorCode → ℕ × ErrorMessage
registry_answer blob_unknown = (not_found_status, record { code = blob_unknown; message = [] })
registry_answer manifest_unknown =
    (not_found_status, record { code = manifest_unknown; message = [] })
registry_answer (bad_request m) = (bad_request_status, record { code = bad_request m; message = m })
registry_answer (unknown m) = (internal_server_error, record { code = unknown []; message = m })

-- `custom_recover`: the status and the one message of the answer
unfoldable pub custom_recover : Finds → List Rejection → ℕ × ErrorMessage
custom_recover finds rejections = elim (finds.find_registry_error rejections) [
  | some e ↦ registry_answer e.code
  | none ↦ elim (finds.find_invalid_header rejections) [
    | some m ↦ (bad_request_status, record { code = unknown []; message = m })
    | none ↦ (internal_server_error, record { code = unknown []; message = [] })
  ]
]
