-- ===== src/Network/Codecs/Artifact.antt =====
-- src/network/artifact_protocol.rs
use pyrsia.Base.{ℕ, Bytes, from_utf8}
use pyrsia.Outcome.{Outcome, ok, unwrap, ◌>>=◌}
use pyrsia.Network.Codecs.{IoError, Wire, read_not_empty, write_and_close}

pub record ArtifactRequest : Type 0 where
  pub artifact_id : Bytes

pub record ArtifactResponse : Type 0 where
  pub data_bytes : Bytes

abbrev pub max_request : ℕ
max_request = 1_000_000

abbrev pub max_response : ℕ
max_response = 100_000_000

-- `read_request`
unfoldable pub read_request : Wire → Bytes → Outcome IoError (ArtifactRequest × Bytes)
read_request w io = do
  (hash_vec, rest) ← read_not_empty w io max_request
  artifact_id ← unwrap (from_utf8 hash_vec)
  ok (record { artifact_id = artifact_id }, rest)

-- `read_response`
unfoldable pub read_response : Wire → Bytes → Outcome IoError (ArtifactResponse × Bytes)
read_response w io = do
  (vec, rest) ← read_not_empty w io max_response
  ok (record { data_bytes = vec }, rest)

-- `write_request`
unfoldable pub write_request : Wire → Bytes → ArtifactRequest → Outcome IoError Bytes
write_request w io request = write_and_close w io request.artifact_id

-- `write_response`
unfoldable pub write_response : Wire → Bytes → ArtifactResponse → Outcome IoError Bytes
write_response w io response = write_and_close w io response.data_bytes
