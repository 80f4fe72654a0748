-- ===== src/Network/Codecs/Blockchain.antt =====
-- src/network/blockchain_protocol.rs
use pyrsia.Base.{ℕ, ◌*◌, Bytes}
use pyrsia.Outcome.{Outcome, ok, ◌>>=◌}
use pyrsia.Network.Codecs.{IoError, Wire, read_not_empty, write_and_close}

pub record BlockchainRequest : Type 0 where
  pub message : Bytes

pub record BlockchainResponse : Type 0 where
  pub message : Bytes

-- `BLOCKCHAIN_MAX_SIZE_PER_MESSAGE` of src/blockchain_service/service.rs
abbrev pub blockchain_max_size_per_message : ℕ
blockchain_max_size_per_message = 10 * 1024 * 1024

-- `read_request`
unfoldable pub read_request : Wire → Bytes → Outcome IoError (BlockchainRequest × Bytes)
read_request w io = do
  (buffer, rest) ← read_not_empty w io blockchain_max_size_per_message
  ok (record { message = buffer }, rest)

-- `read_response`
unfoldable pub read_response : Wire → Bytes → Outcome IoError (BlockchainResponse × Bytes)
read_response w io = do
  (buffer, rest) ← read_not_empty w io blockchain_max_size_per_message
  ok (record { message = buffer }, rest)

-- `write_request`
unfoldable pub write_request : Wire → Bytes → BlockchainRequest → Outcome IoError Bytes
write_request w io request = write_and_close w io request.message

-- `write_response`
unfoldable pub write_response : Wire → Bytes → BlockchainResponse → Outcome IoError Bytes
write_response w io response = write_and_close w io response.message
