-- ===== src/Blockchain/Persistence/Saving.antt =====
-- What `save_block` of structures/chain.rs leaves on the disk.
use pyrsia.Base.{
  ℕ, ◌≡◌, ◌≢◌, ◌⊎◌, inl, inr, some, ◌++◌, [], Bytes, arith, length, drop, get_elem?, eq→==, ne→==,
}
use pyrsia.Outcome.{ok}
use pyrsia.Blockchain.Types.{Ordinal, Block, Chain}
use pyrsia.Blockchain.Platform.{Platform, SerializeLaws, DeserializeLaws}
use pyrsia.Blockchain.Chain.{get_block_position}
use pyrsia.Blockchain.Disk.{absent, file, Directory, FileSystem, IsReliable, put, overwrite}
use pyrsia.Blockchain.Persistence.{save_block}

-- The file `name.ser` reads back as the block, and every other entry is as it was.
abbrev pub IsWritten : Platform → ℕ → Block → Directory → Directory → Type 0
IsWritten p name b d d' =
    ((bytes : Bytes) × (d' name ≡ file bytes) × (p.deserialize_block bytes ≡ some b))
    × ((k : ℕ) → k ≢ name → d' k ≡ d k)

module _ (p : Platform) (fs : FileSystem) (writes : SerializeLaws p) (reads : DeserializeLaws p)
    (disk : IsReliable fs) where
  -- A saved block goes over what the file held before, and reads back.
  pub save_block_lem :
      (c : Chain) (ordinal : Ordinal) (name i : ℕ) (b : Block) (d : Directory)
      → get_block_position c ordinal ≡ ok (some i)
      → get_elem? c.blocks i ≡ some b
      → (d name ≡ absent) ⊎ ((old : Bytes) × (d name ≡ file old))
      → (d' : Directory) × (save_block p fs c ordinal name d ≡ (ok tt, d'))
        × IsWritten p name b d d'
  unfolding save_block put
  save_block_lem c ordinal name i b d found at (inl new) =
      let (bytes, written) = writes.block_writes b in
      let d1 : Directory = put name (file []) d in
      let d2 : Directory = put name (overwrite bytes (d1 name)) d1 in
      (
        d2,
        ground (arith, written, disk.always_opens name, disk.never_fails name bytes),
        (
          (
            bytes ++ drop (length bytes) [],
            ground (arith, eq→== name name),
            reads.block_reads b bytes _ written,
          ),
          λ k other. ground (arith, ne→== k name),
        ),
      )
  save_block_lem c ordinal name i b d found at (inr (old, e)) =
      let (bytes, written) = writes.block_writes b in
      (
        put name (overwrite bytes (d name)) d,
        ground (arith, written, disk.always_opens name, disk.never_fails name bytes),
        (
          (
            bytes ++ drop (length bytes) old,
            ground (arith, eq→== name name),
            reads.block_reads b bytes _ written,
          ),
          λ k other. ground (arith, ne→== k name),
        ),
      )
