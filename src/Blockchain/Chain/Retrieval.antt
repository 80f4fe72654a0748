-- ===== src/Blockchain/Chain/Retrieval.antt =====
-- What structures/chain.rs hands out for a range of ordinals.
use pyrsia.Base.{
  suc, ◌-◌, ◌^◌, ◌<◌, ◌≤◌, ◌≡◌, inl, inr, List, [], arith, length, take, drop, ltb, leb,
  if◌then◌else◌, ◌&&◌, length-drop, length-take,
}
use pyrsia.Outcome.{ok}
use pyrsia.Blockchain.Types.{Ordinal, Block, Chain}
use pyrsia.Blockchain.Chain.{len, retrieve_blocks}
use pyrsia.Blockchain.Chain.Sequential.{IsSequential, IsSequential-take, IsSequential-drop}
use pyrsia.Blockchain.Chain.Positions.{get_block_position-total, get_block_position_lem}

-- Retrieving a range never panics, whatever the chain holds.
pub retrieve_blocks-total :
    (c : Chain) (start end : Ordinal) → (bs : List Block) × (retrieve_blocks c start end ≡ ok bs)
unfolding retrieve_blocks len
retrieve_blocks-total c start end = elim (get_block_position-total c start) [
  | inl e ↦ elim (get_block_position-total c end) [
    | inl e2 ↦ ([], rw (e, e2))
    | inr (j, e2, h2) ↦ ([], rw (e, e2))
  ]
  | inr (i, e, h) ↦ elim (get_block_position-total c end) [
    | inl e2 ↦ ([], rw (e, e2))
    | inr (j, e2, h2) ↦
        (if leb i j then take (suc j - i) (drop i c.blocks) else [], rw (e, e2) (ground arith))
  ]
]

-- The blocks of a range within the chain: those from `start` up to `end`.
abbrev pub range : Chain → Ordinal → Ordinal → List Block
range c start end =
    if leb start end && ltb end (len c) then take (suc end - start) (drop start c.blocks) else []

pub retrieve_blocks_lem :
    (c : Chain) (start end : Ordinal)
    → IsSequential 0 c.blocks
    → len c ≤ 2 ^ 64
    → retrieve_blocks c start end ≡ ok (range c start end)
unfolding retrieve_blocks len
retrieve_blocks_lem c start end s small =
    rw (get_block_position_lem c start s small, get_block_position_lem c end s small) (ground arith)

-- A range within a chain whose ordinals count up from 0 is answered with exactly one block for each
-- ordinal from `start` to `end`, in order.
pub retrieve_blocks-IsSequential :
    (c : Chain) (start end : Ordinal)
    → IsSequential 0 c.blocks
    → len c ≤ 2 ^ 64
    → start ≤ end
    → end < len c
    → (bs : List Block) × (retrieve_blocks c start end ≡ ok bs)
      × IsSequential start bs
      × (length bs ≡ suc end - start)
unfolding len
retrieve_blocks-IsSequential c start end s small le lt = (
  take (suc end - start) (drop start c.blocks),
  rw (retrieve_blocks_lem c start end s small) (ground arith),
  IsSequential-take start _ _ (IsSequential-drop 0 start start c.blocks (omega arith) s),
  omega (arith, length-take (suc end - start) (drop start c.blocks), length-drop start c.blocks),
)
