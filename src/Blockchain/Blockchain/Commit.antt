-- ===== src/Blockchain/Blockchain/Commit.antt =====
-- What `save_block` of blockchain.rs, which is `commit_block`, does with the next block.
use pyrsia.Blockchain.Persistence.{IsSaved}
use pyrsia.Base.{
  ℕ, subst, sym, ◌⊎◌, suc, ◌^◌, ◌<◌, ◌≡◌, refl, ◌∙◌, ap, inl, some, [], ◌∷◌, ◌++◌, Bytes, arith,
  length, length-append, get_elem?, get_elem?-append_end, lt→ltb,
}
use pyrsia.Outcome.{ok}
use pyrsia.Blockchain.Types.{Block, Chain}
use pyrsia.Blockchain.Platform.{SerializeLaws, DeserializeLaws, SignatureLaws}
use pyrsia.Blockchain.Crypto.{digest}
use pyrsia.Blockchain.Chain
use pyrsia.Blockchain.Chain.Sequential.{IsSequential, IsSequential-append}
use pyrsia.Blockchain.Chain.Positions.{get_block_position_lem}
use pyrsia.Blockchain.Disk.{absent, file, Directory, IsReliable}
use pyrsia.Blockchain.Persistence.Saving.{IsWritten, save_block_lem}
use pyrsia.Blockchain.Blockchain.{Blockchain, Setting, save_block}
use pyrsia.Blockchain.Blockchain.Invariant.{
  IsLinked, AllSealed, IsNext, IsSealed, IsConsistent, IsLinked-append, AllSealed-append,
  IsSaved-append,
}

-- What a call relies on: other crates as documented, and a disk that takes every write.
pub record IsSound (s : Setting) : Type 0 where
  pub writes : SerializeLaws s.platform
  pub reads : DeserializeLaws s.platform
  pub signs : SignatureLaws s.platform
  pub disk : IsReliable s.file_system

-- The chain is the old one with the block at its end.
abbrev pub Extends : Blockchain → Block → Blockchain → Type 0
Extends bc b bc' = bc'.chain.blocks ≡ bc.chain.blocks ++ b ∷ []

-- The directory can take a file of this number: none is there, or a regular one that goes under.
abbrev pub IsWritable : Directory → ℕ → Type 0
IsWritable d n = (d n ≡ absent) ⊎ ((old : Bytes) × (d n ≡ file old))

-- Committing the block with the next ordinal succeeds, extends the chain and writes its file.
pub save_block_next :
    (s : Setting) (b : Block) (bc : Blockchain)
    → IsSound s
    → IsSequential 0 bc.chain.blocks
    → b.header.ordinal ≡ length bc.chain.blocks
    → length bc.chain.blocks < 2 ^ 64
    → IsWritable bc.directory b.header.ordinal
    → (bc' : Blockchain) × (save_block s.platform s.file_system b bc ≡ (ok tt, bc'))
      × Extends bc b bc'
      × IsSequential 0 bc'.chain.blocks
      × IsWritten s.platform b.header.ordinal b bc.directory bc'.directory
unfolding save_block Chain.add_block Chain.len
save_block_next s b bc sound sequential e small room =
    let p = s.platform in
    let blocks = bc.chain.blocks in
    let chain : Chain = record { blocks = blocks ++ b ∷ [] } in
    let n = b.header.ordinal in
    let longer : length chain.blocks ≡ suc n = omega (arith, length-append blocks (b ∷ [])) in
    let seq : IsSequential 0 chain.blocks =
      IsSequential-append 0 blocks b sequential (omega arith) in
    let found : Chain.get_block_position chain n ≡ ok (some n) =
      get_block_position_lem chain n seq (omega arith)
      ∙ rw (lt→ltb n (length chain.blocks) (omega arith)) refl in
    let at : get_elem? chain.blocks n ≡ some b =
      ap (get_elem? chain.blocks) e ∙ get_elem?-append_end blocks b in
    let (d', done, written) =
      save_block_lem p s.file_system sound.writes sound.reads sound.disk chain n n n b bc.directory
        found at room in
    (record { chain = chain; directory = d' }, rw done, refl, seq, written)

-- Committing a sealed block that follows the chain succeeds and keeps the blockchain in order.
pub save_block-IsConsistent :
    (s : Setting) (b : Block) (bc : Blockchain)
    → IsSound s
    → IsConsistent s.platform bc
    → b.header.ordinal ≡ length bc.chain.blocks
    → IsNext (digest s.platform []) bc.chain.blocks b
    → IsSealed s.platform b
    → length bc.chain.blocks < 2 ^ 64
    → (bc' : Blockchain) × (save_block s.platform s.file_system b bc ≡ (ok tt, bc'))
      × Extends bc b bc'
      × IsConsistent s.platform bc'
save_block-IsConsistent s b bc sound v e follows sealed small =
    let p = s.platform in
    let blocks = bc.chain.blocks in
    let n = b.header.ordinal in
    let (bc', done, longer, seq, written) =
      save_block_next s b bc sound v.sequential e small (inl (v.clear n (omega arith))) in
    let size : length bc'.chain.blocks ≡ suc (length blocks) =
      omega (arith, ap length longer, length-append blocks (b ∷ [])) in
    let linked = IsLinked-append (digest p []) blocks b v.linked follows in
    let all_sealed = AllSealed-append p blocks b v.all_sealed sealed in
    let saved =
      IsSaved-append p 0 n blocks b bc.directory bc'.directory (omega arith) v.saved written in
    (
      bc',
      done,
      longer,
      record {
        sequential = seq;
        linked = subst (IsLinked (digest p [])) (sym longer) linked;
        all_sealed = subst (AllSealed p) (sym longer) all_sealed;
        saved = subst (IsSaved p bc'.directory 0) (sym longer) saved;
        clear = λ k h. written.1 k (omega arith) ∙ v.clear k (omega arith);
      },
    )
