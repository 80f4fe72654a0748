-- ===== src/BlockchainService/Pulling.antt =====
-- The loop of `init_pull_from_others` of src/blockchain_service/service.rs.
use pyrsia.Base.{
  ℕ, suc, ◌+◌, ◌^◌, ◌≤◌, ◌≡◌, refl, sym, ◌∙◌, ap, subst, List, [], ◌∷◌, ◌++◌, arith, length,
  length-append, inr, ◌⊎◌, Bytes,
}
use native.Mathlib.Decide.{ℕ_discrete}
use pyrsia.Blockchain.Persistence.Saving.{IsWritten}
use mathlib.Core.List.{append-nil, append_assoc}
use pyrsia.Outcome.{ok}
use pyrsia.Blockchain.Types.{Block}
use pyrsia.Blockchain.Platform.{Platform}
use pyrsia.Blockchain.Chain.Sequential.{IsSequential}
use pyrsia.Blockchain.Disk.{Directory, absent, file}
use pyrsia.Blockchain.Blockchain.{Blockchain, Setting}
use pyrsia.Blockchain.Blockchain.Commit.{IsSound, IsWritable, save_block_next}
use pyrsia.BlockchainService.{add_block, add_blocks}
use pyrsia.BlockchainService.Sync.{add_block_next}

written_room :
    (p : Platform) (n : ℕ) (b : Block) (d d' : Directory) (k : ℕ)
    → IsWritten p n b d d'
    → IsWritable d k
    → IsWritable d' k
written_room p n b d d' k w room = elim (ℕ_discrete k n) [
  | yes same ↦ inr (w.0.0, subst (λ i. d' i ≡ file w.0.0) (sym same) w.0.1)
  | no other ↦ subst (λ e. (e ≡ absent) ⊎ ((old : Bytes) × (e ≡ file old))) (sym (w.1 k other)) room
]

-- A chain taken block by block: where every number can be written, blocks whose ordinals go on
-- from the chain's are all kept, in order.
pub add_blocks_lem :
    (s : Setting) (bs : List Block) (bc : Blockchain)
    → IsSound s
    → IsSequential 0 bc.chain.blocks
    → IsSequential (length bc.chain.blocks) bs
    → length bc.chain.blocks + length bs ≤ 2 ^ 64
    → ((k : ℕ) → IsWritable bc.directory k)
    → (bc' : Blockchain) × (add_blocks s.platform s.file_system bs bc ≡ (ok tt, bc'))
      × (bc'.chain.blocks ≡ bc.chain.blocks ++ bs)
unfolding add_blocks
add_blocks_lem s [] bc sound seq more small room = (bc, refl, sym (append-nil bc.chain.blocks))
add_blocks_lem s (b ∷ bs) bc sound seq more small room =
    let p = s.platform in
    let fs = s.file_system in
    let (bc1, done, longer, seq1, written) =
      save_block_next s b bc sound seq more.0 (omega arith) (room b.header.ordinal) in
    let n1 : length bc1.chain.blocks ≡ suc (length bc.chain.blocks) =
      omega (arith, ap length longer, length-append bc.chain.blocks (b ∷ [])) in
    let room1 : (k : ℕ) → IsWritable bc1.directory k =
      λ k. written_room p b.header.ordinal b bc.directory bc1.directory k written (room k) in
    let (bc2, rest, all) =
      add_blocks_lem s bs bc1 sound seq1 (subst (λ k. IsSequential k bs) (sym n1) more.1)
        (omega arith) room1 in
    let taken : add_block p fs b.header.ordinal b bc ≡ (ok tt, bc1) =
      add_block_next p fs b bc seq (omega arith) more.0 ∙ done in
    (
      bc2,
      ground (arith, taken, rest),
      all ∙ ap (λ x. x ++ bs) longer ∙ append_assoc bc.chain.blocks (b ∷ []) bs,
    )
