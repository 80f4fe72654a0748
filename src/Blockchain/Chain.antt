-- ===== src/Blockchain/Chain.antt =====
-- structures/chain.rs: the list of blocks. A list never has 2 ^ 64 blocks, so `len` needs no cast;
-- `ordinal as usize` drops the upper 64 bits on a 64-bit machine.
pub mod Sequential
pub mod Positions
pub mod Retrieval
use pyrsia.Base.{
  ℕ, suc, ◌-◌, ◌%◌, ◌^◌, Bool, true, false, Option, none, some, List, [], ◌∷◌, ◌++◌, length,
  get_elem?, get_last?, take, drop, ltb, leb, ◌==◌, if◌then◌else◌,
}
use pyrsia.Outcome.{Outcome, ok, panicked, unwrap, ◌>>=◌}
use pyrsia.Blockchain.Types.{Ordinal, Block, Chain, BlockchainError}

-- `Default::default()`
abbrev pub empty : Chain
empty = record { blocks = [] }

unfoldable pub len : Chain → ℕ
len c = length c.blocks

unfoldable pub is_empty : Chain → Bool
is_empty c = elim c.blocks [ [] ↦ true | _ ↦ false ]

unfoldable pub add_block : Block → Chain → Chain
add_block block c = record { blocks = c.blocks ++ block ∷ [] }

unfoldable pub last_block : Chain → Option Block
last_block c = get_last? c.blocks

-- `ordinal as usize`
unfoldable pub as_usize : Ordinal → ℕ
as_usize ordinal = ordinal % 2 ^ 64

unfoldable pub get_block_position : Chain → Ordinal → Outcome BlockchainError (Option ℕ)
unfolding len last_block
get_block_position c ordinal = if leb (len c) ordinal then ok none else (do
  last ← unwrap (last_block c)
  if ltb last.header.ordinal ordinal then ok none else (do
    block ← unwrap (get_elem? c.blocks (as_usize ordinal))
    if block.header.ordinal == ordinal then ok (some (as_usize ordinal)) else ok none))

-- `blocks[start..=end].to_vec()`, which panics if the end is out of bounds
unfoldable pub slice {ℓ} : {E : Type ℓ} → List Block → ℕ → ℕ → Outcome E (List Block)
slice blocks start end =
    if ltb end (length blocks) then ok (take (suc end - start) (drop start blocks)) else panicked

unfoldable pub retrieve_blocks : Chain → Ordinal → Ordinal → Outcome BlockchainError (List Block)
unfolding get_block_position slice
retrieve_blocks c start end = do
  start_position ← get_block_position c start
  end_position ← get_block_position c end
  elim start_position [
    | some start_pos ↦ elim end_position [
      | some end_pos ↦ if leb start_pos end_pos then slice c.blocks start_pos end_pos else ok []
      | none ↦ ok []
    ]
    | none ↦ ok []
  ]
