-- ===== src/BlockchainService/Responder.antt =====
-- The receiving side: `handle_incoming_blockchain_command` of pyrsia_node/src/network/handlers.rs,
-- which hands each message to the event loop of src/blockchain_service/event.rs.
pub mod Messages
use pyrsia.Base.{
  ℕ, ◌-◌, Option, none, some, List, [], ◌∷◌, Bytes, length, take, drop, get_elem?, leb,
  if◌then◌else◌,
}
use pyrsia.Outcome.{Outcome, ok, err, panicked, ok_or, unwrap}
use pyrsia.Exec.{Exec, lift, pure, ◌>>=◌, ◌>>◌}
use pyrsia.Blockchain.Types.{
  Ordinal, Block, BlockchainError, serialization_error, invalid_blockchain_length,
}
use pyrsia.Blockchain.Platform.{Platform}
use pyrsia.Blockchain.Block
use pyrsia.Blockchain.Disk.{FileSystem}
use pyrsia.BlockchainService.{
  BlockchainService, in_blockchain, add_block, pull_blocks, query_last_block,
}
use pyrsia.BlockchainService.Command.{
  BlockchainCommand, broadcast, push_to_peer, pull_from_peer, query_highest_block_ordinal, try_from,
}

-- The part of the artifact service that the event loop calls, with its own state. Errors of other
-- crates are not told apart.
pub record Listener (L : Type 0) : Type 0 where
  pub handle_block_added : List Bytes → Exec L BlockchainError (Unit {0})

-- `BlockchainEventLoop`
pub record BlockchainEventLoop (L : Type 0) : Type 0 where
  pub blockchain_service : BlockchainService
  pub artifact_service : L

abbrev pub Action : Type 0 → Type 0 → Type 0
Action L = Exec (BlockchainEventLoop L) BlockchainError

module _ {L : Type 0} (p : Platform) (fs : FileSystem) (listener : Listener L) where
  -- A call of `self.artifact_service`
  abbrev in_artifacts : Exec L BlockchainError (Unit {0}) → Action L (Unit {0})
  in_artifacts m s = let (r, a) = m s.artifact_service in (r, record s { artifact_service = a })

  -- A call of `self.blockchain_service`
  abbrev pub in_service : {A : Type 0} → Exec BlockchainService BlockchainError A → Action L A
  in_service m s = let (r, b) = m s.blockchain_service in (r, record s { blockchain_service = b })

  -- `BlockchainEvent::HandleBlockBroadcast`, as `handle_blockchain_event` answers it
  unfoldable pub handle_block_broadcast : Ordinal → Block → Action L (Unit {0})
  handle_block_broadcast block_ordinal block = do
    let payloads = Block.fetch_payload block
    in_service (in_blockchain (add_block p fs block_ordinal block))
    in_artifacts (listener.handle_block_added payloads)

  -- `BlockchainEvent::HandlePullBlocks`
  unfoldable pub handle_pull_blocks : Ordinal → Ordinal → Action L (List Block)
  handle_pull_blocks start end s = (pull_blocks start end s.blockchain_service, s)

  -- `BlockchainEvent::HandleQueryBlockOrdinal`
  unfoldable pub handle_query_block_ordinal : Action L Ordinal
  handle_query_block_ordinal s = elim (query_last_block s.blockchain_service) [
    | some latest_block ↦ (ok latest_block.header.ordinal, s)
    | none ↦ (err (invalid_blockchain_length 0), s)
  ]

-- `data[start..end]` and `data[start..]`, which panic out of bounds
unfoldable pub byte_range : Bytes → ℕ → ℕ → Outcome BlockchainError Bytes
byte_range bytes start end =
    if leb end (length bytes) then ok (take (end - start) (drop start bytes)) else panicked

unfoldable pub bytes_from : Bytes → ℕ → Outcome BlockchainError Bytes
bytes_from bytes start = if leb start (length bytes) then ok (drop start bytes) else panicked

-- `deserialize(..)?`
abbrev pub or_serialization_error : {A : Type 0} → Option A → Outcome BlockchainError A
or_serialization_error o = ok_or o serialization_error

module _ {L : Type 0} (p : Platform) (fs : FileSystem) (listener : Listener L) where
  -- The arms of `handle_incoming_blockchain_command`
  unfoldable pub respond : Bytes → BlockchainCommand → Action L Bytes
  respond bytes broadcast = do
    ordinal_bytes ← lift (byte_range bytes 1 17)
    block_ordinal ← lift (or_serialization_error (p.deserialize_ordinal ordinal_bytes))
    block_bytes ← lift (bytes_from bytes 17)
    block ← lift (or_serialization_error (p.deserialize_block block_bytes))
    handle_block_broadcast p fs listener block_ordinal block
    pure (0 ∷ [])
  respond bytes pull_from_peer = do
    start_bytes ← lift (byte_range bytes 1 17)
    start ← lift (or_serialization_error (p.deserialize_ordinal start_bytes))
    end_bytes ← lift (bytes_from bytes 17)
    end ← lift (or_serialization_error (p.deserialize_ordinal end_bytes))
    blocks ← handle_pull_blocks p fs listener start end
    lift (unwrap (p.serialize_blocks blocks))
  respond bytes query_highest_block_ordinal = do
    highest_ordinal ← handle_query_block_ordinal p fs listener
    lift (unwrap (p.serialize_ordinal highest_ordinal))
  -- `todo!()`
  respond bytes push_to_peer = lift panicked

  -- `handle_incoming_blockchain_command`
  unfoldable pub handle_incoming_blockchain_command : Bytes → Action L Bytes
  handle_incoming_blockchain_command bytes = do
    first ← lift (unwrap (get_elem? bytes 0))
    command ← lift (try_from first)
    respond bytes command
