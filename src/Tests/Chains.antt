-- ===== src/Tests/Chains.antt =====
-- The theorems on the chain of one node, at the chain that a first start makes.
use pyrsia.Base.{
  suc, ◌^◌, ◌<◌, ◌≤◌, ◌≡◌, ◌≢◌, refl, ap, inl, some, none, [], ◌∷◌, ◌++◌, arith, length,
}
use pyrsia.Outcome.{ok, err}
use pyrsia.Blockchain.Types.{Block, invalid_blockchain_length}
use pyrsia.Blockchain.Block
use pyrsia.Blockchain.Chain
use pyrsia.Blockchain.Chain.Positions.{get_block_position_lem}
use pyrsia.Blockchain.Persistence.{load_blocks, load_blocks-total}
use pyrsia.Blockchain.Blockchain
use pyrsia.Blockchain.Blockchain.{Blockchain}
use pyrsia.Blockchain.Blockchain.Invariant.{IsConsistent}
use pyrsia.Blockchain.Blockchain.Commit.{Extends}
use pyrsia.Blockchain.Blockchain.Growth.{add_block-IsConsistent}
use pyrsia.Blockchain.Blockchain.Restart.{new_first, new_restart}
use pyrsia.Blockchain.Blockchain.Peers.{update_block_from_peers_ahead}
use pyrsia.Tests.Sample.{platform, file_system, setting, sound, empty_directory}

abbrev pub first_block : Block
first_block = (new_first 1 setting empty_directory sound (λ k. refl) (omega arith)).0

abbrev pub first : Blockchain
first = (new_first 1 setting empty_directory sound (λ k. refl) (omega arith)).1

pub first_blocks : first.chain.blocks ≡ first_block ∷ []
first_blocks = (new_first 1 setting empty_directory sound (λ k. refl) (omega arith)).3

pub first_payload : Block.fetch_payload first_block ≡ Blockchain.genesis_payload ∷ []
first_payload = (new_first 1 setting empty_directory sound (λ k. refl) (omega arith)).4

pub first-IsConsistent : IsConsistent platform first
first-IsConsistent = (new_first 1 setting empty_directory sound (λ k. refl) (omega arith)).5

pub first_length : length first.chain.blocks ≡ 1
first_length = ap length first_blocks

add_block-IsConsistent_example :
    (b : Block) × (bc' : Blockchain) × (Blockchain.add_block setting (1 ∷ 2 ∷ []) first
      ≡ (ok tt, bc'))
    × Extends first b bc'
    × (Block.fetch_payload b ≡ (1 ∷ 2 ∷ []) ∷ [])
    × IsConsistent platform bc'
add_block-IsConsistent_example =
    add_block-IsConsistent setting (1 ∷ 2 ∷ []) first sound first-IsConsistent
      (omega (arith, first_length)) (omega (arith, first_length))

new_restart_example : Blockchain.new 5 setting first.directory ≡ some (ok tt, first)
new_restart_example =
    new_restart 5 setting first first-IsConsistent (omega (arith, first_length))
      (omega (arith, first_length)) (omega (arith, first_length))

pub first_small : Chain.len first.chain ≤ 2 ^ 64
unfolding Chain.len
first_small = omega (arith, first_length)

first_inside : 0 < Chain.len first.chain
unfolding Chain.len
first_inside = omega (arith, first_length)

load_blocks-total_example : load_blocks 2 platform file_system first.directory 0 Chain.empty ≢ none
load_blocks-total_example =
    load_blocks-total 2 1 1 platform file_system first.directory 0 Chain.empty (omega arith)
      (inl (first-IsConsistent.clear 1 (omega (arith, first_length)))) (omega arith) (omega arith)

first_found : Chain.get_block_position first.chain 0 ≡ ok (some 0)
first_found = ground (
  arith,
  get_block_position_lem first.chain 0 first-IsConsistent.sequential first_small,
  first_inside,
)

abbrev pub stray_block : Block
stray_block = record first_block { header = record first_block.header { ordinal = 9 } }

update_block_from_peers_ahead_example :
    Blockchain.update_block_from_peers platform file_system stray_block first ≡ (
      err (invalid_blockchain_length (suc (length first.chain.blocks))),
      record {
        chain = record { blocks = first.chain.blocks ++ stray_block ∷ [] };
        directory = first.directory;
      },
    )
update_block_from_peers_ahead_example =
    update_block_from_peers_ahead platform file_system stray_block first
      (omega (arith, first_length))
