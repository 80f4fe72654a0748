-- ===== src/Blockchain/Blockchain/Growth.antt =====
-- How `add_block` of blockchain.rs builds a chain.
use pyrsia.Base.{suc, ◌+◌, ◌^◌, ◌<◌, ◌≡◌, ◌∙◌, ap, [], ◌∷◌, Bytes, arith, length, get_last?-lt, map}
use pyrsia.Outcome.{ok}
use pyrsia.Blockchain.Types.{HashDigest, Ordinal, Block, Transaction, create, BlockchainError}
use pyrsia.Blockchain.Crypto.{digest, address_of}
use pyrsia.Blockchain.Block
use pyrsia.Blockchain.Transaction
use pyrsia.Blockchain.Chain
use pyrsia.Blockchain.Chain.Sequential.{IsSequential-last}
use pyrsia.Blockchain.Blockchain.{Blockchain, Setting, add_block, next_ordinal, last_block}
use pyrsia.Blockchain.Blockchain.Invariant.{IsNext-last, IsSealed, IsConsistent}
use pyrsia.Blockchain.Blockchain.Commit.{IsSound, Extends, save_block-IsConsistent}

-- A block that carries one payload.
pub record IsMade (s : Setting) (parent : HashDigest) (n : Ordinal) (payload : Bytes) (b : Block)
    : Type 0 where
  pub parent_is : b.header.parent_hash ≡ parent
  pub ordinal_is : b.header.ordinal ≡ n
  pub payload_is : Block.fetch_payload b ≡ payload ∷ []
  pub is_sealed : IsSealed s.platform b

-- The transaction and the block that `genesis` and `add_block` make.
pub block-IsMade :
    (s : Setting) (parent : HashDigest) (n : Ordinal) (payload : Bytes)
    → IsSound s
    → let p = s.platform in
      (t : Transaction) × (b : Block) × (Transaction.new {E = BlockchainError} p s.transaction_draw
          create
          (address_of p s.keypair)
          payload
          s.keypair
        ≡ ok t)
      × (Block.new {E = BlockchainError} p s.block_draw parent n (t ∷ []) s.keypair ≡ ok b)
      × IsMade s parent n payload b
unfolding Block.fetch_payload
block-IsMade s parent n payload sound =
    let p = s.platform in
    let (t, made_t, fresh_t) =
      Transaction.Laws.new_transaction-Fresh p sound.writes sound.signs {E = BlockchainError}
        s.transaction_draw create (address_of p s.keypair) payload s.keypair in
    let (b, made_b, fresh_b) =
      Block.Laws.new_block-Fresh p sound.writes sound.signs {E = BlockchainError} s.block_draw
        parent n (t ∷ []) s.keypair in
    (
      t,
      b,
      made_t,
      made_b,
      record {
        parent_is = fresh_b.parent_is;
        ordinal_is = fresh_b.ordinal_is;
        payload_is =
            ap (map (λ x. x.payload)) fresh_b.transactions_are
            ∙ ap (λ x. x ∷ []) fresh_t.payload_is;
        is_sealed = record {
          hashed = fresh_b.hashed;
          rooted = fresh_b.rooted;
          verified = fresh_b.verified;
        };
      },
    )

next_ordinal_small : (n : Ordinal) → n + 1 < 2 ^ 128 → next_ordinal n ≡ suc n
unfolding next_ordinal
next_ordinal_small n h = omega arith

-- With other crates as documented, on a disk that opens and writes every file, adding a payload to a
-- chain that is in order, not empty and shorter than 2^64 succeeds. The chain grows by one block that
-- carries the payload alone, and the blockchain stays in order: the block names the hash of the one
-- before it, has the next ordinal, is sealed and is on the disk.
pub add_block-IsConsistent :
    (s : Setting) (payload : Bytes) (bc : Blockchain)
    → IsSound s
    → IsConsistent s.platform bc
    → 0 < length bc.chain.blocks
    → length bc.chain.blocks < 2 ^ 64
    → (b : Block) × (bc' : Blockchain) × (add_block s payload bc ≡ (ok tt, bc'))
      × Extends bc b bc'
      × (Block.fetch_payload b ≡ payload ∷ [])
      × IsConsistent s.platform bc'
unfolding add_block last_block Chain.last_block
add_block-IsConsistent s payload bc sound v pos small =
    let p = s.platform in
    let (last, at) = get_last?-lt bc.chain.blocks 0 pos in
    let n = next_ordinal last.header.ordinal in
    let (t, b, made_t, made_b, made) = block-IsMade s last.header.hash n payload sound in
    let last_ordinal = IsSequential-last 0 bc.chain.blocks last v.sequential at in
    let place : b.header.ordinal ≡ length bc.chain.blocks =
      omega (arith, made.ordinal_is, next_ordinal_small last.header.ordinal (omega arith)) in
    let follows = IsNext-last (digest p []) bc.chain.blocks last b at made.parent_is in
    let (bc', done, longer, v') =
      save_block-IsConsistent s b bc sound v place follows made.is_sealed small in
    (b, bc', ground (arith, made_t, made_b, at, done), longer, made.payload_is, v')
