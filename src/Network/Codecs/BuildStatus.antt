-- ===== src/Network/Codecs/BuildStatus.antt =====
-- src/network/build_status_protocol.rs
use pyrsia.Base.{ℕ, Option, Bytes, from_utf8}
use pyrsia.Outcome.{Outcome, ok, unwrap, ◌>>=◌}
use pyrsia.Network.Types.{BuildStatus}
use pyrsia.Network.Codecs.{IoError, Wire, read_not_empty, write_and_close}

pub record BuildStatusRequest : Type 0 where
  pub build_id : Bytes

pub record BuildStatusResponse : Type 0 where
  pub status : BuildStatus

-- What the codec calls of bincode
pub record Bincode : Type 0 where
  pub serialize : BuildStatus → Option Bytes
  pub deserialize : Bytes → Option BuildStatus

abbrev pub max_text : ℕ
max_text = 1_000_000

-- `read_request`
unfoldable pub read_request : Wire → Bytes → Outcome IoError (BuildStatusRequest × Bytes)
read_request w io = do
  (hash_vec0, rest) ← read_not_empty w io max_text
  build_id ← unwrap (from_utf8 hash_vec0)
  ok (record { build_id = build_id }, rest)

-- `read_response`
unfoldable pub read_response :
    Bincode → Wire → Bytes → Outcome IoError (BuildStatusResponse × Bytes)
read_response bincode w io = do
  (hash_vec, rest) ← read_not_empty w io max_text
  status ← unwrap (bincode.deserialize hash_vec)
  ok (record { status = status }, rest)

-- `write_request`
unfoldable pub write_request : Wire → Bytes → BuildStatusRequest → Outcome IoError Bytes
write_request w io request = write_and_close w io request.build_id

-- `write_response`, which closes nothing
unfoldable pub write_response : Bincode → Wire → Bytes → BuildStatusResponse → Outcome IoError Bytes
write_response bincode w io response = do
  bytes ← unwrap (bincode.serialize response.status)
  w.write_length_prefixed io bytes
