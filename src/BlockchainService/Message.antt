-- ===== src/BlockchainService/Message.antt =====
-- The messages that src/blockchain_service/service.rs puts together: a command byte, and what the
-- command needs.
use pyrsia.Base.{[], ◌∷◌, ◌++◌, Bytes}
use pyrsia.Outcome.{Outcome, ok, unwrap, ◌>>=◌}
use pyrsia.Blockchain.Types.{Ordinal, Block, BlockchainError}
use pyrsia.Blockchain.Platform.{Platform}
use pyrsia.BlockchainService.Command.{to_u8, broadcast, pull_from_peer, query_highest_block_ordinal}

-- in `broadcast_blockchain`
unfoldable pub broadcast_message : Platform → Block → Outcome BlockchainError Bytes
unfolding to_u8
broadcast_message p block = do
  ordinal_bytes ← unwrap (p.serialize_ordinal block.header.ordinal)
  block_bytes ← unwrap (p.serialize_block block)
  ok (to_u8 broadcast ∷ ordinal_bytes ++ block_bytes)

-- in `query_blockchain_ordinal`
unfoldable pub query_message : Bytes
unfolding to_u8
query_message = to_u8 query_highest_block_ordinal ∷ []

-- in `pull_block_from_other_nodes`
unfoldable pub pull_message : Platform → Ordinal → Ordinal → Outcome BlockchainError Bytes
unfolding to_u8
pull_message p start end = do
  start_bytes ← unwrap (p.serialize_ordinal start)
  end_bytes ← unwrap (p.serialize_ordinal end)
  ok (to_u8 pull_from_peer ∷ start_bytes ++ end_bytes)
