-- ===== src/Blockchain/Blockchain/Peers.antt =====
-- `update_block_from_peers` of blockchain.rs, which takes any block that a peer sends.
use pyrsia.Base.{
  suc, ◌<◌, ◌≡◌, ◌≢◌, refl, ◌∙◌, [], ◌∷◌, ◌++◌, arith, length, length-append, get_elem?-append_end,
}
use pyrsia.Outcome.{err}
use pyrsia.Blockchain.Types.{Block, invalid_blockchain_length}
use pyrsia.Blockchain.Platform.{Platform}
use pyrsia.Blockchain.Chain
use pyrsia.Blockchain.Chain.Sequential.{IsSequential, IsSequential-get}
use pyrsia.Blockchain.Disk.{FileSystem}
use pyrsia.Blockchain.Persistence
use pyrsia.Blockchain.Blockchain.{Blockchain, save_block, update_block_from_peers}

pub update_block_from_peers_lem :
    (p : Platform) (fs : FileSystem) (b : Block) (bc : Blockchain)
    → update_block_from_peers p fs b bc ≡ save_block p fs b bc
unfolding update_block_from_peers save_block
update_block_from_peers_lem p fs b bc = refl

-- The chain grows by the block, whatever the result.
pub update_block_from_peers-blocks :
    (p : Platform) (fs : FileSystem) (b : Block) (bc : Blockchain)
    → (update_block_from_peers p fs b bc).1.chain.blocks ≡ bc.chain.blocks ++ b ∷ []
unfolding update_block_from_peers Chain.add_block
update_block_from_peers-blocks p fs b bc = refl

-- A block whose header has another ordinal than the next one is kept all the same, and the
-- ordinals of the chain no longer count up from 0.
pub update_block_from_peers_unordered :
    (p : Platform) (fs : FileSystem) (b : Block) (bc : Blockchain)
    → b.header.ordinal ≢ length bc.chain.blocks
    → let bc' = (update_block_from_peers p fs b bc).1 in
      (bc'.chain.blocks ≡ bc.chain.blocks ++ b ∷ []) × (¬ IsSequential 0 bc'.chain.blocks)
unfolding update_block_from_peers Chain.add_block
update_block_from_peers_unordered p fs b bc other = (
  refl,
  λ s. other (
      IsSequential-get 0 (length bc.chain.blocks) (bc.chain.blocks ++ b ∷ []) b s
        (get_elem?-append_end bc.chain.blocks b)
      ∙ omega arith),
)

-- A block that is too far ahead is refused with an error and is not written to the disk, but it
-- stays in the chain.
pub update_block_from_peers_ahead :
    (p : Platform) (fs : FileSystem) (b : Block) (bc : Blockchain)
    → length bc.chain.blocks < b.header.ordinal
    → update_block_from_peers p fs b bc ≡ (
      err (invalid_blockchain_length (suc (length bc.chain.blocks))),
      record { chain = record { blocks = bc.chain.blocks ++ b ∷ [] }; directory = bc.directory },
    )
unfolding update_block_from_peers Chain.add_block Persistence.save_block
update_block_from_peers_ahead p fs b bc h = ground (arith, length-append bc.chain.blocks (b ∷ []))
