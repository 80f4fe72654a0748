-- ===== src/Blockchain/Persistence.antt =====
-- `save_block` and `load_blocks` of structures/chain.rs.
pub mod Saving
use pyrsia.Base.{
  ℕ, zero, suc, ◌+◌, ◌<◌, ◌≡◌, ◌≢◌, ◌⊎◌, arith, Option, none, some, List, [], ◌∷◌, ◌++◌, Bytes,
  length, get_elem?, subst, sym, refl, ◌^◌, ◌%◌, ◌-◌, ltb, lt→ltb, if◌then◌else◌,
}
use mathlib.Core.List.{append-nil, append_assoc}
use pyrsia.Outcome.{Outcome, ok, err, ok_or, unwrap}
use pyrsia.Exec.{Exec, lift, ◌>>=◌, ◌>>◌}
use pyrsia.Blockchain.Types.{
  Ordinal, Block, Chain, BlockchainError, serialization_error, io_error, invalid_blockchain_length,
}
use pyrsia.Blockchain.Platform.{Platform}
use pyrsia.Blockchain.Chain.{len, add_block, get_block_position}
use pyrsia.Blockchain.Disk.{
  Entry, absent, file, unreadable, other, Directory, FileSystem, open_file, write_all,
}

-- `Chain::save_block`, into the file `name.ser`
unfoldable pub save_block :
    Platform → FileSystem → Chain → Ordinal → ℕ → Exec Directory BlockchainError (Unit {0})
unfolding len get_block_position open_file write_all
save_block p fs c ordinal name = do
  position ← lift (get_block_position c ordinal)
  block_position ← lift (ok_or position (invalid_blockchain_length (len c)))
  open_file fs name
  block ← lift (unwrap (get_elem? c.blocks block_position))
  bytes ← lift (ok_or (p.serialize_block block) serialization_error)
  write_all fs name bytes

-- What is there under the number that an i32 with these bits counts to: from 2^31 on it is negative.
unfoldable pub entry_at : FileSystem → Directory → ℕ → Entry
entry_at fs d ordinal = if ltb ordinal (2 ^ 31) then d ordinal else fs.negative (2 ^ 32 - ordinal)

-- `ordinal += 1` on an i32, in a release build
unfoldable pub next_file : ℕ → ℕ
next_file ordinal = suc ordinal % 2 ^ 32

-- `Chain::load_blocks` from its loop on, at the number that its counter, an i32, has come to. `none`
-- means that the fuel ran out.
unfoldable pub load_blocks :
    ℕ
    → Platform
    → FileSystem
    → Directory
    → ℕ
    → Chain
    → Option (Outcome BlockchainError (Unit {0}) × Chain)
unfolding add_block
load_blocks zero p fs d ordinal c = none
load_blocks (suc fuel) p fs d ordinal c = elim (entry_at fs d ordinal) [
  | file block_bytes ↦ elim (p.deserialize_block block_bytes) [
    | some block ↦ load_blocks fuel p fs d (next_file ordinal) (add_block block c)
    | none ↦ some (err serialization_error, c)
  ]
  | unreadable ↦ some (err io_error, c)
  | absent ↦ some (ok tt, c)
  | other ↦ some (ok tt, c)
]

-- The directory ends here: `load_blocks` stops at such an entry.
abbrev pub IsEnd : Entry → Type 0
IsEnd e = (e ≡ absent) ⊎ (e ≡ other)

-- The blocks stand in the files from number `n` on.
abbrev pub IsSaved : Platform → Directory → ℕ → List Block → Type 0
IsSaved p d n [] = Unit {0}
IsSaved p d n (b ∷ bs) =
    ((bytes : Bytes) × (d n ≡ file bytes) × (p.deserialize_block bytes ≡ some b))
    × IsSaved p d (suc n) bs

entry_at_small : (fs : FileSystem) (d : Directory) (n : ℕ) → n < 2 ^ 31 → entry_at fs d n ≡ d n
unfolding entry_at
entry_at_small fs d n h = rw (lt→ltb n (2 ^ 31) h) refl

next_file_small : (n : ℕ) → n < 2 ^ 31 → next_file n ≡ suc n
unfolding next_file
next_file_small n h = omega arith

-- When a file with a number below 2^31 is missing, the loop comes to an end with more fuel than
-- there are files before it.
pub load_blocks-total :
    (fuel k m : ℕ) (p : Platform) (fs : FileSystem) (d : Directory) (n : ℕ) (c : Chain)
    → m ≡ k + n
    → IsEnd (d m)
    → m < 2 ^ 31
    → k < fuel
    → load_blocks fuel p fs d n c ≢ none
unfolding load_blocks
load_blocks-total zero k m p fs d n c e stop small h = absurd (omega arith)
load_blocks-total (suc fuel) zero m p fs d n c e stop small h =
    let here : IsEnd (d n) = subst (λ i. IsEnd (d i)) (omega arith) stop in
    ground (arith, entry_at_small fs d n (omega arith))
load_blocks-total (suc fuel) (suc k) m p fs d n c e stop small h =
    let next = next_file_small n (omega arith) in
    let rest = λ (b : Block).
      subst (λ i. load_blocks fuel p fs d i (add_block b c) ≢ none) (sym next)
        (load_blocks-total fuel k m p fs d (suc n) (add_block b c) (omega arith) stop small
          (omega arith)) in
    grind (arith, rest)

-- The loop reads back the blocks that were saved, up to the first number without a file.
pub load_blocks_lem :
    (fuel m : ℕ) (p : Platform) (fs : FileSystem) (d : Directory) (n : ℕ) (c : Chain)
    (bs : List Block)
    → m ≡ n + length bs
    → length bs < fuel
    → m < 2 ^ 31
    → IsSaved p d n bs
    → IsEnd (d m)
    → load_blocks fuel p fs d n c ≡ some (ok tt, record { blocks = c.blocks ++ bs })
unfolding load_blocks
load_blocks_lem zero m p fs d n c bs e h small saved stop = absurd (omega arith)
load_blocks_lem (suc fuel) m p fs d n c [] e h small saved stop =
    let here : IsEnd (d n) = subst (λ i. IsEnd (d i)) (omega arith) stop in
    ground (arith, append-nil c.blocks, entry_at_small fs d n (omega arith))
load_blocks_lem (suc fuel) m p fs d n c (b ∷ bs) e h small ((bytes, at, reads), saved) stop =
    rw
      (entry_at_small fs d n (omega arith), at, load_blocks, reads, next_file_small n (omega arith))
      (rw
        (load_blocks_lem fuel m p fs d (suc n) (add_block b c) bs (omega arith) (omega arith) small
          saved stop)
        (ground (arith, append_assoc c.blocks (b ∷ []) bs)))
