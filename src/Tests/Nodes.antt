-- ===== src/Tests/Nodes.antt =====
-- The theorems on what one node sends and another takes, at a node after its first start.
use pyrsia.Base.{
  ℕ, suc, ◌^◌, ◌≤◌, ◌≡◌, refl, ap, ◌∙◌, inl, some, [], ◌∷◌, ◌++◌, Bytes, arith, length, ltb, ◌==◌,
  not, ◌&&◌, if◌then◌else◌, get_last?, get_elem?,
}
use pyrsia.Outcome.{ok, err}
use pyrsia.Exec.{pure, ◌>>◌}
use pyrsia.Blockchain.Types.{Block, lagging_blockchain_data, BlockchainError}
use pyrsia.Blockchain.Block
use pyrsia.Blockchain.Crypto.{digest}
use pyrsia.Blockchain.Blockchain
use pyrsia.Blockchain.Blockchain.{Blockchain}
use pyrsia.Blockchain.Blockchain.Invariant.{IsConsistent, IsNext, IsNext-last, IsSealed}
use pyrsia.Blockchain.Chain
use pyrsia.Blockchain.Chain.Sequential.{IsSequential, IsSequential-get}
use pyrsia.BlockchainService
use pyrsia.BlockchainService.{
  BlockchainService, add_block, init_pull_from_others, init_other_blockchain_node,
}
use pyrsia.BlockchainService.Message.{broadcast_message}
use pyrsia.BlockchainService.Sync.{
  add_block_lem, add_block_from_peer-IsConsistent, add_block_mismatched,
}
use pyrsia.BlockchainService.Responder.{
  Listener, BlockchainEventLoop, handle_block_broadcast, handle_incoming_blockchain_command,
}
use pyrsia.BlockchainService.Responder.Messages.{respond_broadcast}
use pyrsia.BlockchainService.Convergence.{network_of, init_pull_from_others_converges}
use pyrsia.Tests.Codec.{single}
use pyrsia.Tests.Wires.{frame, wire, wire-IsReliable}
use pyrsia.Tests.Sample.{
  single_fits, platform, file_system, setting, sound, writes, reads, signs, empty_directory,
}
use pyrsia.Tests.Chains.{
  first, first_block, first_blocks, first-IsConsistent, first_length, stray_block,
}

-- An artifact service that counts the blocks.
abbrev pub listener : Listener ℕ
listener = record { handle_block_added = λ payloads n. (ok tt, suc n) }

abbrev pub peer : BlockchainEventLoop ℕ
peer = record {
  blockchain_service = record { blockchain = first; sent = [] };
  artifact_service = 0;
}

first_last : BlockchainService.query_last_block peer.blockchain_service ≡ some first_block
unfolding BlockchainService.query_last_block Blockchain.last_block Chain.last_block
first_last = ap get_last? first_blocks

first_ordinal : first_block.header.ordinal ≡ 0
first_ordinal =
    (IsSequential-get 0 0 first.chain.blocks first_block first-IsConsistent.sequential
      (ap (λ bs. get_elem? bs 0) first_blocks))
    ∙ omega arith

-- A node with one block
abbrev other : BlockchainEventLoop ℕ
other = record {
  blockchain_service = record {
    blockchain = record { chain = record { blocks = single ∷ [] }; directory = empty_directory };
    sent = [];
  };
  artifact_service = 0;
}

other_last : BlockchainService.query_last_block other.blockchain_service ≡ some single
unfolding BlockchainService.query_last_block Blockchain.last_block Chain.last_block
other_last = refl

other_small : Chain.len other.blockchain_service.blockchain.chain ≤ 2 ^ 64
unfolding Chain.len
other_small = omega arith

init_pull_from_others_converges_example :
    (node : BlockchainService) × (init_pull_from_others platform file_system
        (network_of wire platform file_system listener other)
        (1 ∷ [])
        (init_other_blockchain_node empty_directory)
      ≡ (ok 0, node))
    × (node.blockchain.chain.blocks ≡ single ∷ [])
init_pull_from_others_converges_example =
    init_pull_from_others_converges wire frame setting listener other single (1 ∷ [])
      empty_directory wire-IsReliable single_fits sound (refl, tt) other_small other_last
      (λ k. inl refl)

add_block_lem_example : add_block platform file_system 5 first_block first ≡ (
    if 5 == length first.chain.blocks
    then Blockchain.update_block_from_peers platform file_system first_block first
    else if ltb (length first.chain.blocks) 5 && not (length first.chain.blocks == 0)
    then (err lagging_blockchain_data, first)
    else (ok tt, first))
add_block_lem_example =
    add_block_lem platform file_system 5 first_block first first-IsConsistent.sequential
      (omega (arith, first_length))

add_block_mismatched_example :
    let bc' = (add_block platform file_system (length first.chain.blocks) stray_block first).1 in
    (bc'.chain.blocks ≡ first.chain.blocks ++ stray_block ∷ [])
    × (¬ IsSequential 0 bc'.chain.blocks)
add_block_mismatched_example =
    add_block_mismatched platform file_system stray_block first first-IsConsistent.sequential
      (omega (arith, first_length)) (omega (arith, first_length))

respond_broadcast_example :
    (m : Bytes) × (broadcast_message platform stray_block ≡ ok m)
    × (handle_incoming_blockchain_command platform file_system listener m peer
        ≡ (handle_block_broadcast platform file_system listener 9 stray_block >> pure (0 ∷ []))
            peer)
respond_broadcast_example =
    respond_broadcast platform writes reads file_system listener stray_block peer (omega arith)

-- A second block, made by another node.
abbrev second : Block
second =
    (Block.Laws.new_block-Fresh platform writes signs {E = BlockchainError} setting.block_draw
      first_block.header.hash 1 [] (5 ∷ [])).0

second-Fresh : Block.Fresh platform first_block.header.hash 1 [] (5 ∷ []) second
second-Fresh =
    (Block.Laws.new_block-Fresh platform writes signs {E = BlockchainError} setting.block_draw
      first_block.header.hash 1 [] (5 ∷ [])).2

second-IsNext : IsNext (digest platform []) first.chain.blocks second
second-IsNext =
    IsNext-last (digest platform []) first.chain.blocks first_block second
      (ap get_last? first_blocks) second-Fresh.parent_is

second-IsSealed : IsSealed platform second
second-IsSealed = record {
  hashed = second-Fresh.hashed;
  rooted = second-Fresh.rooted;
  verified = second-Fresh.verified;
}

add_block_from_peer-IsConsistent_example :
    IsConsistent platform (add_block platform file_system second.header.ordinal second first).1
add_block_from_peer-IsConsistent_example =
    add_block_from_peer-IsConsistent setting second first sound first-IsConsistent second-IsNext
      second-IsSealed (omega (arith, first_length))
