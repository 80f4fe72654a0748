-- ===== src/Blockchain/Chain/Positions.antt =====
-- Where structures/chain.rs finds a block by its ordinal.
use pyrsia.Base.{
  ℕ, ◌^◌, ◌<◌, ◌≤◌, ◌≡◌, ◌⊎◌, inl, inr, none, some, arith, length, get_last?-lt, get_elem?-lt, ltb,
  leb, ◌==◌, if◌then◌else◌, Bool-cases,
}
use pyrsia.Outcome.{ok}
use pyrsia.Blockchain.Types.{Ordinal, Chain}
use pyrsia.Blockchain.Chain.{len, as_usize, get_block_position}
use pyrsia.Blockchain.Chain.Sequential.{IsSequential, IsSequential-get, IsSequential-last}

as_usize-le : (n : Ordinal) → as_usize n ≤ n
unfolding as_usize
as_usize-le n = omega arith

pub as_usize_small : (n : Ordinal) → n < 2 ^ 64 → as_usize n ≡ n
unfolding as_usize
as_usize_small n h = omega arith

-- A look-up never panics, whatever the chain holds, and what it finds is a position in the list.
pub get_block_position-total :
    (c : Chain) (ordinal : Ordinal)
    → (get_block_position c ordinal ≡ ok none)
      ⊎ ((i : ℕ) × (get_block_position c ordinal ≡ ok (some i)) × (i < len c))
unfolding get_block_position
get_block_position-total c ordinal = elim (Bool-cases (leb (len c) ordinal)) [
  | inl beyond ↦ inl (rw beyond)
  | inr inside ↦
      let bound : as_usize ordinal < len c = ground (arith, as_usize-le ordinal) in
      let (last, e) = get_last?-lt c.blocks (as_usize ordinal) (unfold len in bound) in
      let (b, at) = get_elem?-lt c.blocks (as_usize ordinal) (unfold len in bound) in
      elim (Bool-cases (ltb last.header.ordinal ordinal)) [
        | inl later ↦ inl (ground arith)
        | inr known ↦ elim (Bool-cases (b.header.ordinal == ordinal)) [
          | inl hit ↦ inr (as_usize ordinal, ground arith, bound)
          | inr miss ↦ inl (ground arith)
        ]
      ]
]

-- In a chain whose ordinals count up from 0 the look-up finds the ordinals below the length, each at
-- its own position, and no other.
pub get_block_position_lem :
    (c : Chain) (ordinal : Ordinal)
    → IsSequential 0 c.blocks
    → len c ≤ 2 ^ 64
    → get_block_position c ordinal ≡ ok (if ltb ordinal (len c) then some ordinal else none)
unfolding get_block_position
get_block_position_lem c ordinal s small = elim (Bool-cases (leb (len c) ordinal)) [
  | inl beyond ↦ rw beyond (ground arith)
  | inr inside ↦
      let bound : ordinal < length c.blocks = ground arith in
      let cast : as_usize ordinal ≡ ordinal = as_usize_small ordinal (omega arith) in
      let (last, e) = get_last?-lt c.blocks ordinal bound in
      let (b, at) = get_elem?-lt c.blocks ordinal bound in
      ground
        (arith, IsSequential-get 0 ordinal c.blocks b s at, IsSequential-last 0 c.blocks last s e)
]
