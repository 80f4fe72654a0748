-- ===== src/BlockchainService/Sync.antt =====
-- `add_block` of src/blockchain_service/service.rs: which blocks of other nodes are taken.
use pyrsia.Base.{
  suc, ◌^◌, ◌<◌, ◌≤◌, ◌≡◌, ◌≢◌, refl, ◌∙◌, ap, [], ◌∷◌, ◌++◌, arith, length, length-zero, get_last?,
  get_last?-lt, ltb, ◌==◌, if◌then◌else◌, inl, inr, Bool-cases, not, ◌&&◌, eq→==,
}
use pyrsia.Outcome.{ok, err}
use pyrsia.Blockchain.Types.{Ordinal, Block, lagging_blockchain_data}
use pyrsia.Blockchain.Platform.{Platform}
use pyrsia.Blockchain.Crypto.{digest}
use pyrsia.Blockchain.Chain
use pyrsia.Blockchain.Chain.Sequential.{IsSequential, IsSequential-last}
use pyrsia.Blockchain.Disk.{FileSystem}
use pyrsia.Blockchain.Blockchain
use pyrsia.Blockchain.Blockchain.{Blockchain, Setting}
use pyrsia.Blockchain.Blockchain.Invariant.{IsConsistent, IsNext, IsSealed}
use pyrsia.Blockchain.Blockchain.Commit.{IsSound, save_block-IsConsistent}
use pyrsia.Blockchain.Blockchain.Peers.{
  update_block_from_peers_lem, update_block_from_peers_unordered,
}
use pyrsia.BlockchainService.{add_block}

next_ordinal_small : (n : Ordinal) → n < 2 ^ 64 → Blockchain.next_ordinal n ≡ suc n
unfolding Blockchain.next_ordinal
next_ordinal_small n h = omega arith

-- In a node whose ordinals count up from 0, a block is placed by the ordinal that was announced
-- for it. An empty chain takes ordinal 0 and silently drops any other. A chain that has blocks
-- refuses an ordinal past the next one as lagging, silently drops one that it has, and takes the
-- next one.
pub add_block_lem :
    (p : Platform) (fs : FileSystem) (o : Ordinal) (b : Block) (bc : Blockchain)
    → IsSequential 0 bc.chain.blocks
    → length bc.chain.blocks ≤ 2 ^ 64
    → let n = length bc.chain.blocks in
      add_block p fs o b bc ≡ (
        if o == n
        then Blockchain.update_block_from_peers p fs b bc
        else if ltb n o && not (n == 0)
        then (err lagging_blockchain_data, bc)
        else (ok tt, bc))
unfolding add_block Blockchain.last_block Chain.last_block
add_block_lem p fs o b bc s small = elim (Bool-cases (length bc.chain.blocks == 0)) [
  | inl empty ↦
      let nothing = ap get_last? (length-zero bc.chain.blocks (ground arith)) in
      ground (arith, nothing)
  | inr more ↦
      let (last, at) = get_last?-lt bc.chain.blocks 0 (ground arith) in
      let e = IsSequential-last 0 bc.chain.blocks last s at in
      ground (arith, at, next_ordinal_small last.header.ordinal)
]

-- With other crates as documented, on a disk that opens and writes every file, taking a sealed block
-- under its own ordinal, if it names the hash of the last one, keeps a blockchain in order that is
-- shorter than 2^64, whatever the ordinal is.
pub add_block_from_peer-IsConsistent :
    (s : Setting) (b : Block) (bc : Blockchain)
    → IsSound s
    → IsConsistent s.platform bc
    → IsNext (digest s.platform []) bc.chain.blocks b
    → IsSealed s.platform b
    → length bc.chain.blocks < 2 ^ 64
    → IsConsistent s.platform (add_block s.platform s.file_system b.header.ordinal b bc).1
add_block_from_peer-IsConsistent s b bc sound v follows sealed small =
    let p = s.platform in
    let n = length bc.chain.blocks in
    let o = b.header.ordinal in
    rw (add_block_lem p s.file_system o b bc v.sequential (omega arith))
      (elim (Bool-cases (o == n)) [
        | inl hit ↦ rw hit (taken (ground arith))
        | inr miss ↦ elim (Bool-cases (ltb n o && not (n == 0))) [
          | inl lagging ↦ rw (miss, lagging) v
          | inr known ↦ rw (miss, known) v
        ]
      ])
  where
    taken :
        b.header.ordinal ≡ length bc.chain.blocks
        → IsConsistent s.platform
            (Blockchain.update_block_from_peers s.platform s.file_system b bc).1
    taken e =
        let (bc', done, longer, v') =
          save_block-IsConsistent s b bc sound v e follows sealed small in
        rw (update_block_from_peers_lem s.platform s.file_system b bc, done) v'

-- The announced ordinal is not compared with the block's own: a block with another ordinal in its
-- header, announced under the next one, is kept, and the ordinals no longer count up from 0.
pub add_block_mismatched :
    (p : Platform) (fs : FileSystem) (b : Block) (bc : Blockchain)
    → IsSequential 0 bc.chain.blocks
    → length bc.chain.blocks ≤ 2 ^ 64
    → b.header.ordinal ≢ length bc.chain.blocks
    → let bc' = (add_block p fs (length bc.chain.blocks) b bc).1 in
      (bc'.chain.blocks ≡ bc.chain.blocks ++ b ∷ []) × (¬ IsSequential 0 bc'.chain.blocks)
add_block_mismatched p fs b bc s small other =
    rw
      (
        add_block_lem p fs (length bc.chain.blocks) b bc s small,
        eq→== (length bc.chain.blocks) (length bc.chain.blocks) refl,
      )
      (update_block_from_peers_unordered p fs b bc other)

-- The next block, under its own ordinal, is committed.
pub add_block_next :
    (p : Platform) (fs : FileSystem) (b : Block) (bc : Blockchain)
    → IsSequential 0 bc.chain.blocks
    → length bc.chain.blocks ≤ 2 ^ 64
    → b.header.ordinal ≡ length bc.chain.blocks
    → add_block p fs b.header.ordinal b bc ≡ Blockchain.save_block p fs b bc
add_block_next p fs b bc s small e =
    add_block_lem p fs b.header.ordinal b bc s small
    ∙ rw (eq→== b.header.ordinal (length bc.chain.blocks) e) (update_block_from_peers_lem p fs b bc)
