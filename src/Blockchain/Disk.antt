-- ===== src/Blockchain/Disk.antt =====
-- The directory that blockchain/src/blockchain.rs keeps its blocks in, as structures/chain.rs reads
-- and writes it through tokio::fs. A file is known by the number `n` in its name `n.ser`.
use pyrsia.Base.{
  ℕ, ◌≡◌, Bool, true, Option, none, some, [], ◌++◌, Bytes, length, drop, ◌==◌, if◌then◌else◌,
}
use pyrsia.Outcome.{ok, err}
use pyrsia.Exec.{Exec}
use pyrsia.Blockchain.Types.{BlockchainError, io_error}

-- `other` is what is not a regular file, and `unreadable` a regular file whose read fails.
pub data Entry : Type 0 where
  absent : Entry
  file : Bytes → Entry
  unreadable : Entry
  other : Entry

abbrev pub Directory : Type 0
Directory = ℕ → Entry

-- How the operating system answers. `opens n` is whether `n.ser` can be opened for writing, and
-- `fails n bytes` is what a write or a sync that fails leaves behind, or `none` if it succeeds;
-- `negative n` is what is there under the name `-n.ser`, which the program never writes.
pub record FileSystem : Type 0 where
  pub opens : ℕ → Bool
  pub fails : ℕ → Bytes → Option Entry
  pub negative : ℕ → Entry

-- A file system with room, and with the permission to write in the directory.
pub record IsReliable (fs : FileSystem) : Type 0 where
  pub always_opens : (n : ℕ) → fs.opens n ≡ true
  pub never_fails : (n : ℕ) (bytes : Bytes) → fs.fails n bytes ≡ none

unfoldable pub put : ℕ → Entry → Directory → Directory
put n e d k = if k == n then e else d k

-- `OpenOptions::new().create(true).write(true).append(false).open(..)`: there is no `truncate`.
unfoldable pub open_file : FileSystem → ℕ → Exec Directory BlockchainError (Unit {0})
unfolding put
open_file fs n d = elim (d n) [
  | absent ↦ if fs.opens n then (ok tt, put n (file []) d) else (err io_error, d)
  | file _ ↦ if fs.opens n then (ok tt, d) else (err io_error, d)
  | unreadable ↦ if fs.opens n then (ok tt, d) else (err io_error, d)
  | other ↦ (err io_error, d)
]

-- What a write from the start of a file leaves: old bytes past its end stay.
unfoldable pub overwrite : Bytes → Entry → Entry
overwrite bytes (file old) = file (bytes ++ drop (length bytes) old)
overwrite bytes e = e

-- `write_all` and `sync_all`
unfoldable pub write_all : FileSystem → ℕ → Bytes → Exec Directory BlockchainError (Unit {0})
unfolding put overwrite
write_all fs n bytes d = elim (fs.fails n bytes) [
  | none ↦ (ok tt, put n (overwrite bytes (d n)) d)
  | some e ↦ (err io_error, put n e d)
]
