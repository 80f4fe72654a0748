-- ===== src/Blockchain/Blockchain/Restart.antt =====
-- How `new` of blockchain.rs starts a chain, and reads one back.
use pyrsia.Base.{ℕ, ◌^◌, ◌<◌, ◌≡◌, ◌∙◌, ap, inl, false, some, [], ◌∷◌, arith, length}
use pyrsia.Outcome.{ok}
use pyrsia.Blockchain.Types.{Block, Chain}
use pyrsia.Blockchain.Crypto.{digest}
use pyrsia.Blockchain.Block
use pyrsia.Blockchain.Chain
use pyrsia.Blockchain.Disk.{Directory, absent}
use pyrsia.Blockchain.Persistence.{load_blocks, load_blocks_lem}
use pyrsia.Blockchain.Blockchain.{Blockchain, Setting, genesis_payload, genesis, new}
use pyrsia.Blockchain.Blockchain.Invariant.{IsConsistent}
use pyrsia.Blockchain.Blockchain.Commit.{IsSound, save_block-IsConsistent}
use pyrsia.Blockchain.Blockchain.Growth.{block-IsMade}

new_loaded :
    (fuel : ℕ) (s : Setting) (d : Directory) (c : Chain)
    → load_blocks fuel s.platform s.file_system d 0 Chain.empty ≡ some (ok tt, c)
    → new fuel s d ≡ some (genesis s (record { chain = c; directory = d }))
unfolding new
new_loaded fuel s d c e = rw (new, e)

is_empty_pos : (c : Chain) → 0 < length c.blocks → Chain.is_empty c ≡ false
unfolding Chain.is_empty
is_empty_pos c h = grind arith

-- A first start in an empty directory makes the genesis block: the blockchain is in order, with the
-- one block.
pub new_first :
    (fuel : ℕ) (s : Setting) (d : Directory)
    → IsSound s
    → ((k : ℕ) → d k ≡ absent)
    → 0 < fuel
    → (b : Block) × (bc : Blockchain) × (new fuel s d ≡ some (ok tt, bc))
      × (bc.chain.blocks ≡ b ∷ [])
      × (Block.fetch_payload b ≡ genesis_payload ∷ [])
      × IsConsistent s.platform bc
unfolding genesis Chain.is_empty
new_first fuel s d sound none_there h =
    let p = s.platform in
    let start : Blockchain = record { chain = Chain.empty; directory = d } in
    let (t, b, made_t, made_b, made) = block-IsMade s (digest p []) 0 genesis_payload sound in
    let v : IsConsistent p start = record {
      sequential = tt;
      linked = tt;
      all_sealed = tt;
      saved = tt;
      clear = λ k _. none_there k;
    } in
    let (bc, done, longer, v') =
      save_block-IsConsistent s b start sound v made.ordinal_is made.parent_is made.is_sealed
        (omega arith) in
    let loaded =
      load_blocks_lem fuel 0 p s.file_system d 0 Chain.empty [] (omega arith) h (omega arith) tt
        (inl (none_there 0)) in
    (
      b,
      bc,
      new_loaded fuel s d Chain.empty loaded ∙ ap some (ground (arith, made_t, made_b, done)),
      longer,
      made.payload_is,
      v',
    )

-- A restart reads the same blocks back: with fuel for every block, `new` on the directory of a
-- blockchain in order that has from 1 to 2^31 - 1 blocks gives that blockchain again.
pub new_restart :
    (fuel : ℕ) (s : Setting) (bc : Blockchain)
    → IsConsistent s.platform bc
    → 0 < length bc.chain.blocks
    → length bc.chain.blocks < 2 ^ 31
    → length bc.chain.blocks < fuel
    → new fuel s bc.directory ≡ some (ok tt, bc)
unfolding genesis
new_restart fuel s bc v pos small h =
    let n = length bc.chain.blocks in
    let loaded =
      load_blocks_lem fuel n s.platform s.file_system bc.directory 0 Chain.empty bc.chain.blocks
        (omega arith) h small v.saved (inl (v.clear n (omega arith))) in
    new_loaded fuel s bc.directory bc.chain loaded
    ∙ ap some (ground (arith, is_empty_pos bc.chain pos))
