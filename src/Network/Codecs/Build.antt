-- ===== src/Network/Codecs/Build.antt =====
-- src/network/build_protocol.rs, with the texts that strum derives for `PackageType` of
-- src/artifact_service/model.rs
use pyrsia.Base.{ℕ, Option, none, some, Bytes, codes, from_utf8, if◌then◌else◌}
use pyrsia.Outcome.{Outcome, ok, unwrap, ◌>>=◌}
use pyrsia.TransparencyLog.Types.{PackageType, docker, maven2}
use pyrsia.TransparencyLog.Database.{bytes_eq}
use pyrsia.Network.Codecs.{IoError, Wire, read_not_empty, write_and_close}

pub record BuildRequest : Type 0 where
  pub package_type : PackageType
  pub package_specific_id : Bytes

pub record BuildResponse : Type 0 where
  pub build_id : Bytes

abbrev pub max_text : ℕ
max_text = 1_000_000

-- `PackageType::to_string`
unfoldable pub to_string : PackageType → Bytes
to_string docker = codes "Docker"
to_string maven2 = codes "Maven2"

-- `PackageType::from_str`
unfoldable pub from_str : Bytes → Option PackageType
from_str s =
    if bytes_eq s (codes "Docker")
    then some docker
    else if bytes_eq s (codes "Maven2")
    then some maven2
    else none

-- `read_request`
unfoldable pub read_request : Wire → Bytes → Outcome IoError (BuildRequest × Bytes)
read_request w io = do
  (hash_vec0, io1) ← read_not_empty w io max_text
  package_type_string ← unwrap (from_utf8 hash_vec0)
  package_type ← unwrap (from_str package_type_string)
  (hash_vec1, io2) ← read_not_empty w io1 max_text
  package_specific_id ← unwrap (from_utf8 hash_vec1)
  ok (record { package_type = package_type; package_specific_id = package_specific_id }, io2)

-- `read_response`
unfoldable pub read_response : Wire → Bytes → Outcome IoError (BuildResponse × Bytes)
read_response w io = do
  (hash_vec, rest) ← read_not_empty w io max_text
  build_id ← unwrap (from_utf8 hash_vec)
  ok (record { build_id = build_id }, rest)

-- `write_request`
unfoldable pub write_request : Wire → Bytes → BuildRequest → Outcome IoError Bytes
write_request w io request = do
  out ← w.write_length_prefixed io (to_string request.package_type)
  write_and_close w out request.package_specific_id

-- `write_response`, which closes nothing
unfoldable pub write_response : Wire → Bytes → BuildResponse → Outcome IoError Bytes
write_response w io response = w.write_length_prefixed io response.build_id
