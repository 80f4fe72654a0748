-- ===== src/TransparencyLog/Types.antt =====
-- The data of src/transparency_log/log.rs and of src/artifact_service/model.rs.
use pyrsia.Base.{ℕ, Bool, true, false, Option, none, some, Bytes}

-- artifact_service/model.rs
pub data PackageType : Type 0 where
  docker maven2 : PackageType

pub data Operation : Type 0 where
  add_artifact remove_artifact add_node remove_node : Operation

pub record TransparencyLog : Type 0 where
  pub id : Bytes
  pub package_type : Option PackageType
  pub package_specific_id : Bytes
  pub num_artifacts : ℕ
  pub package_specific_artifact_id : Bytes
  pub artifact_hash : Bytes
  pub source_hash : Bytes
  pub artifact_id : Bytes
  pub source_id : Bytes
  pub timestamp : ℕ
  pub operation : Operation
  pub node_id : Bytes
  pub node_public_key : Bytes

-- The errors of other crates that a variant carries are not told apart.
pub data TransparencyLogError : Type 0 where
  log_not_found : Bytes → TransparencyLogError
  artifact_not_found : PackageType → Bytes → TransparencyLogError
  artifact_already_exists : PackageType → Bytes → TransparencyLogError
  artifact_log_is_not_consistent_state : PackageType → Bytes → ℕ → ℕ → TransparencyLogError
  node_already_exists : Bytes → TransparencyLogError
  node_does_not_exist_or_removed : Bytes → TransparencyLogError
  invalid_hash : Bytes → Bytes → Bytes → TransparencyLogError
  invalid_node_peer_id_format : TransparencyLogError
  invalid_operation : Bytes → Operation → TransparencyLogError
  database_failure storage_failure blockchain_failure serde_json_failure : TransparencyLogError

pub record AddArtifactRequest : Type 0 where
  pub package_type : PackageType
  pub package_specific_id : Bytes
  pub num_artifacts : ℕ
  pub package_specific_artifact_id : Bytes
  pub artifact_hash : Bytes

-- `==` on the two enums
abbrev pub same_type : PackageType → PackageType → Bool
same_type docker docker = true
same_type maven2 maven2 = true
same_type _ _ = false

abbrev pub same_operation : Operation → Operation → Bool
same_operation add_artifact add_artifact = true
same_operation remove_artifact remove_artifact = true
same_operation add_node add_node = true
same_operation remove_node remove_node = true
same_operation _ _ = false

-- A column `package_type` that may be null against a text
abbrev pub has_type : PackageType → TransparencyLog → Bool
has_type t log = elim log.package_type [ some u ↦ same_type t u | none ↦ false ]

abbrev pub is_artifact_operation : Operation → Bool
is_artifact_operation add_artifact = true
is_artifact_operation remove_artifact = true
is_artifact_operation _ = false
