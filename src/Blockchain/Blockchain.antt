-- ===== src/Blockchain/Blockchain.antt =====
-- blockchain.rs: the chain of a node and the directory that keeps it.
pub mod Invariant
pub mod Commit
pub mod Growth
pub mod Restart
pub mod Peers
use pyrsia.Base.{
  ℕ, ◌+◌, ◌%◌, ◌^◌, ◌≡◌, Bool, Option, none, some, List, [], ◌∷◌, Bytes, if◌then◌else◌, codes,
}
use pyrsia.Outcome.{Outcome, ok, err, panicked, ok_or}
use pyrsia.Exec.{Exec, lift, gets, ◌>>=◌, ◌>>◌}
use pyrsia.Blockchain.Types.{Ordinal, create, Block, Chain, BlockchainError, empty_blockchain}
use pyrsia.Blockchain.Platform.{Platform, Draw}
use pyrsia.Blockchain.Crypto.{digest, address_of}
use pyrsia.Blockchain.Transaction
use pyrsia.Blockchain.Block
use pyrsia.Blockchain.Chain
use pyrsia.Blockchain.Disk.{Directory, FileSystem}
use pyrsia.Blockchain.Persistence

-- The directory is the one at `blockchain_path`.
pub record Blockchain : Type 0 where
  pub chain : Chain
  pub directory : Directory

-- What a node brings to a call: other crates, the file system, its key pair, and the draws of the
-- clock and the random numbers for the transaction and for the block of the call.
pub record Setting : Type 0 where
  pub platform : Platform
  pub file_system : FileSystem
  pub keypair : Bytes
  pub transaction_draw : Draw
  pub block_draw : Draw

abbrev pub Action : Type 0 → Type 0
Action = Exec Blockchain BlockchainError

-- The private `Blockchain::save_block`. The chain grows before the file is written.
unfoldable pub save_block : Platform → FileSystem → Block → Action (Unit {0})
save_block p fs block bc =
    let block_ordinal = block.header.ordinal in
    let chain = Chain.add_block block bc.chain in
    let (r, d) = Persistence.save_block p fs chain block_ordinal block_ordinal bc.directory in
    (r, record { chain = chain; directory = d })

-- The payload of the genesis transaction, "this is the first reserved transaction".
abbrev pub genesis_payload : Bytes
genesis_payload = codes "this is the first reserved transaction"

-- The part of `Blockchain::new` after the blocks have been loaded.
unfoldable pub genesis : Setting → Action (Unit {0})
unfolding save_block
genesis s bc =
    if Chain.is_empty bc.chain
    then (do
      let p = s.platform
      let local_id = address_of p s.keypair
      transaction ←
          lift (Transaction.new p s.transaction_draw create local_id genesis_payload s.keypair)
      block ← lift (Block.new p s.block_draw (digest p []) 0 (transaction ∷ []) s.keypair)
      save_block p s.file_system block)
        bc
    else (ok tt, bc)

-- `Blockchain::new`. `none` means that the fuel of `load_blocks` ran out.
unfoldable pub new :
    ℕ → Setting → Directory → Option (Outcome BlockchainError (Unit {0}) × Blockchain)
unfolding genesis
new fuel s d = elim (Persistence.load_blocks fuel s.platform s.file_system d 0 Chain.empty) [
  | none ↦ none
  | some (ok _, c) ↦ some (genesis s (record { chain = c; directory = d }))
  | some (err e, c) ↦ some (err e, record { chain = c; directory = d })
  | some (panicked, c) ↦ some (panicked, record { chain = c; directory = d })
]

-- `Blockchain::empty_new`
unfoldable pub empty_new : Directory → Blockchain
empty_new d = record { chain = Chain.empty; directory = d }

unfoldable pub last_block : Blockchain → Option Block
last_block bc = Chain.last_block bc.chain

-- `Blockchain::commit_block`
unfoldable pub commit_block : Platform → FileSystem → Block → Action (Unit {0})
unfolding save_block
commit_block = save_block

-- `ordinal + 1` on a `u128`, in a release build
unfoldable pub next_ordinal : Ordinal → Ordinal
next_ordinal n = (n + 1) % 2 ^ 128

-- `Blockchain::add_block`
unfoldable pub add_block : Setting → Bytes → Action (Unit {0})
unfolding last_block commit_block next_ordinal
add_block s payload = do
  let p = s.platform
  let submitter = address_of p s.keypair
  transaction ← lift (Transaction.new p s.transaction_draw create submitter payload s.keypair)
  last ← (λ bc. (ok_or (last_block bc) empty_blockchain, bc))
  block ← lift (
      Block.new p s.block_draw last.header.hash (next_ordinal last.header.ordinal)
        (transaction ∷ []) s.keypair)
  commit_block p s.file_system block

-- `Blockchain::update_block_from_peers`
unfoldable pub update_block_from_peers : Platform → FileSystem → Block → Action (Unit {0})
unfolding commit_block
update_block_from_peers p fs block = commit_block p fs block

-- `Blockchain::pull_blocks`
unfoldable pub pull_blocks : Ordinal → Ordinal → Blockchain → Outcome BlockchainError (List Block)
pull_blocks start end bc = Chain.retrieve_blocks bc.chain start end
