-- ===== src/NodeApi/Requests.antt =====
-- src/node_api/model: the requests, and which fields of a log they ask for.
pub mod Columns
use pyrsia.Base.{ℕ, Bool, Option, none, some, List, [], ◌∷◌, Bytes, codes, length, if◌then◌else◌}
use pyrsia.Outcome.{Outcome, ok, err, ◌>>=◌}
use pyrsia.TransparencyLog.Types.{PackageType, Operation, TransparencyLog}
use pyrsia.TransparencyLog.Database.{bytes_eq}

pub data ContentType : Type 0 where
  json csv : ContentType

pub data TransparencyLogField : Type 0 where
  id_field package_type_field package_specific_id_field num_artifacts_field : TransparencyLogField
  package_specific_artifact_id_field artifact_hash_field source_hash_field : TransparencyLogField
  artifact_id_field source_id_field timestamp_field operation_field : TransparencyLogField
  node_id_field node_public_key_field : TransparencyLogField

pub record Content : Type 0 where
  pub fields : List TransparencyLogField

pub record TransparencyLogOutputParams : Type 0 where
  pub format : Option ContentType
  pub content : Option Content

pub record RequestAddAuthorizedNode : Type 0 where
  pub peer_id : Bytes

pub record RequestDockerBuild : Type 0 where
  pub image : Bytes

pub record RequestMavenBuild : Type 0 where
  pub gav : Bytes

pub record RequestBuildStatus : Type 0 where
  pub build_id : Bytes

pub record RequestDockerLog : Type 0 where
  pub image : Bytes
  pub output_params : Option TransparencyLogOutputParams
  pub latest : Option Bool

pub record RequestMavenLog : Type 0 where
  pub gav : Bytes
  pub output_params : Option TransparencyLogOutputParams
  pub latest : Option Bool

-- `ParseContentTypeError` and `ParseTransparencyLogFieldError`
pub data ParseError : Type 0 where
  invalid_type invalid_field : Bytes → ParseError

-- `ContentType::default`
abbrev pub default_type : ContentType
default_type = json

-- `ContentType::from_str`
unfoldable pub type_from_str : Bytes → Outcome ParseError ContentType
type_from_str s =
    if bytes_eq s (codes "json")
    then ok json
    else if bytes_eq s (codes "csv")
    then ok csv
    else err (invalid_type s)

-- `ContentType::from`
unfoldable pub type_from : Option Bytes → Outcome ParseError ContentType
type_from none = ok default_type
type_from (some val) = type_from_str val

-- `ContentType::response_content_type`
unfoldable pub response_content_type : ContentType → Bytes
response_content_type json = codes "application/json"
response_content_type csv = codes "text/csv"

-- The names in `TransparencyLogField::aaa`; its descriptions are only shown.
unfoldable pub field_name : TransparencyLogField → Bytes
field_name id_field = codes "id"
field_name package_type_field = codes "package_type"
field_name package_specific_id_field = codes "package_specific_id"
field_name num_artifacts_field = codes "num_artifacts"
field_name package_specific_artifact_id_field = codes "package_specific_artifact_id"
field_name artifact_hash_field = codes "artifact_hash"
field_name source_hash_field = codes "source_hash"
field_name artifact_id_field = codes "artifact_id"
field_name source_id_field = codes "source_id"
field_name timestamp_field = codes "timestamp"
field_name operation_field = codes "operation"
field_name node_id_field = codes "node_id"
field_name node_public_key_field = codes "node_public_key"

-- `Content::default`
abbrev pub all_fields : List TransparencyLogField
all_fields =
    id_field ∷ package_type_field ∷ package_specific_id_field ∷ num_artifacts_field
    ∷ package_specific_artifact_id_field ∷ artifact_hash_field ∷ source_hash_field
    ∷ artifact_id_field ∷ source_id_field ∷ timestamp_field ∷ operation_field ∷ node_id_field
    ∷ node_public_key_field ∷ []

-- The arms of `TransparencyLogField::from_str`, on the text in lower case
unfoldable pub named_field : Bytes → Option TransparencyLogField
named_field s =
    if bytes_eq s (codes "id")
    then some id_field
    else if bytes_eq s (codes "package_type")
    then some package_type_field
    else if bytes_eq s (codes "package_specific_id")
    then some package_specific_id_field
    else if bytes_eq s (codes "num_artifacts")
    then some num_artifacts_field
    else if bytes_eq s (codes "package_specific_artifact_id")
    then some package_specific_artifact_id_field
    else if bytes_eq s (codes "artifact_hash")
    then some artifact_hash_field
    else if bytes_eq s (codes "source_hash")
    then some source_hash_field
    else if bytes_eq s (codes "artifact_id")
    then some artifact_id_field
    else if bytes_eq s (codes "source_id")
    then some source_id_field
    else if bytes_eq s (codes "timestamp")
    then some timestamp_field
    else if bytes_eq s (codes "operation")
    then some operation_field
    else if bytes_eq s (codes "node_id")
    then some node_id_field
    else if bytes_eq s (codes "node_public_key")
    then some node_public_key_field
    else none

module _ (to_lowercase : Bytes → Bytes) where
  -- `TransparencyLogField::from_str`
  unfoldable pub field_from_str : Bytes → Outcome ParseError TransparencyLogField
  field_from_str s = elim (named_field (to_lowercase s)) [
    | some field ↦ ok field
    | none ↦ err (invalid_field s)
  ]

  -- The loop of `Content::from`
  unfoldable pub parse_fields : List Bytes → Outcome ParseError (List TransparencyLogField)
  parse_fields [] = ok []
  parse_fields (fld ∷ flds) =
      field_from_str fld >>= λ field. parse_fields flds >>= λ res. ok (field ∷ res)

  -- `Content::from`
  unfoldable pub content_from : Option (List Bytes) → Outcome ParseError Content
  content_from none = ok (record { fields = all_fields })
  content_from (some val) = parse_fields val >>= λ res. ok (record { fields = res })

-- `Content::size`
unfoldable pub content_size : Content → ℕ
content_size content = length content.fields

-- The value of a field of a log
pub data FieldValue : Type 0 where
  text : Bytes → FieldValue
  number : ℕ → FieldValue
  type_value : Option PackageType → FieldValue
  operation_value : Operation → FieldValue

-- The arms of `OutputTransparencyLog::serialize`
unfoldable pub field_value : TransparencyLog → TransparencyLogField → FieldValue
field_value log id_field = text log.id
field_value log package_type_field = type_value log.package_type
field_value log package_specific_id_field = text log.package_specific_id
field_value log num_artifacts_field = number log.num_artifacts
field_value log package_specific_artifact_id_field = text log.package_specific_artifact_id
field_value log artifact_hash_field = text log.artifact_hash
field_value log source_hash_field = text log.source_hash
field_value log artifact_id_field = text log.artifact_id
field_value log source_id_field = text log.source_id
field_value log timestamp_field = number log.timestamp
field_value log operation_field = operation_value log.operation
field_value log node_id_field = text log.node_id
field_value log node_public_key_field = text log.node_public_key

-- `OutputTransparencyLog::serialize`
unfoldable pub serialize_fields :
    List TransparencyLogField → TransparencyLog → List (Bytes × FieldValue)
serialize_fields [] log = []
serialize_fields (field ∷ fields) log =
    (field_name field, field_value log field) ∷ serialize_fields fields log
