-- ===== src/BlockchainService.antt =====
-- src/blockchain_service/service.rs: a node's blockchain, what it sends to other nodes and what it
-- takes from them.
pub mod Command
pub mod Message
pub mod Sync
pub mod Pulling
pub mod Responder
pub mod Events
pub mod Convergence
use pyrsia.Base.{
  ℕ, Bool, true, false, Option, none, some, List, [], ◌∷◌, ◌++◌, Bytes, ltb, ◌==◌, if◌then◌else◌,
}
use pyrsia.Outcome.{Outcome, ok, err, panicked, ok_or, unwrap}
use pyrsia.Exec.{Exec, lift, gets, pure, ◌>>=◌, ◌>>◌}
use pyrsia.Blockchain.Types.{Ordinal, Block, BlockchainError, anyhow_error, lagging_blockchain_data}
use pyrsia.Blockchain.Platform.{Platform}
use pyrsia.Blockchain.Disk.{Directory, FileSystem}
use pyrsia.Blockchain.Blockchain
use pyrsia.Blockchain.Blockchain.{Blockchain, Setting}
use pyrsia.BlockchainService.Message.{broadcast_message, query_message, pull_message}

-- `PeerId`
abbrev pub PeerId : Type 0
PeerId = Bytes

-- `p2p_client`, from which the service broadcasts and asks other nodes. `none` is an error.
pub record Network : Type 0 where
  pub broadcast_block : Bytes → Bool
  pub request_blockchain : PeerId → Bytes → Option Bytes

-- The fields `blockchain` and, for `p2p_client`, the messages that were broadcast, newest first.
-- `keypair` is the one of the setting.
pub record BlockchainService : Type 0 where
  pub blockchain : Blockchain
  pub sent : List Bytes

abbrev pub Action : Type 0 → Type 0
Action = Exec BlockchainService BlockchainError

-- A call of `self.blockchain`
abbrev pub in_blockchain : {A : Type 0} → Exec Blockchain BlockchainError A → Action A
in_blockchain m s = let (r, bc) = m s.blockchain in (r, record s { blockchain = bc })

-- `BlockchainService::init_first_blockchain_node`; the genesis block is signed with the key pair of
-- the setting that is given here, `blockchain_keypair`.
unfoldable pub init_first_blockchain_node :
    ℕ → Setting → Directory → Option (Outcome BlockchainError (Unit {0}) × BlockchainService)
init_first_blockchain_node fuel s d = elim (Blockchain.new fuel s d) [
  | none ↦ none
  | some (r, bc) ↦ some (r, record { blockchain = bc; sent = [] })
]

-- `BlockchainService::init_other_blockchain_node`
unfoldable pub init_other_blockchain_node : Directory → BlockchainService
unfolding Blockchain.empty_new
init_other_blockchain_node d = record { blockchain = Blockchain.empty_new d; sent = [] }

-- `BlockchainService::broadcast_blockchain`
unfoldable pub broadcast_blockchain : Platform → Network → Block → Action (Unit {0})
broadcast_blockchain p net block = do
  buf ← lift (broadcast_message p block)
  (λ s.
      if net.broadcast_block buf
      then (ok tt, record s { sent = buf ∷ s.sent })
      else (err anyhow_error, s))

-- `BlockchainService::add_payload`
unfoldable pub add_payload : Setting → Network → Bytes → Action (Unit {0})
unfolding broadcast_blockchain
add_payload s net payload = do
  in_blockchain (Blockchain.add_block s payload)
  last ← (λ x. (unwrap (Blockchain.last_block x.blockchain), x))
  broadcast_blockchain s.platform net last

-- `BlockchainService::query_blockchain_ordinal`
unfoldable pub query_blockchain_ordinal : Platform → Network → PeerId → Action Ordinal
query_blockchain_ordinal p net other_peer_id = do
  response ← lift (ok_or (net.request_blockchain other_peer_id query_message) anyhow_error)
  lift (unwrap (p.deserialize_ordinal response))

-- `BlockchainService::pull_block_from_other_nodes`
unfoldable pub pull_block_from_other_nodes :
    Platform → Network → PeerId → Ordinal → Ordinal → Action (List Block)
pull_block_from_other_nodes p net other_peer_id start end = do
  buf ← lift (pull_message p start end)
  response ← lift (ok_or (net.request_blockchain other_peer_id buf) anyhow_error)
  lift (unwrap (p.deserialize_blocks response))

-- `BlockchainService::add_block`, on the blockchain alone
unfoldable pub add_block :
    Platform → FileSystem → Ordinal → Block → Exec Blockchain BlockchainError (Unit {0})
add_block p fs ordinal block bc = elim (Blockchain.last_block bc) [
  | none ↦ if ordinal == 0 then Blockchain.update_block_from_peers p fs block bc else (ok tt, bc)
  | some last_block ↦
      let expected = Blockchain.next_ordinal last_block.header.ordinal in
      if ltb expected ordinal
      then (err lagging_blockchain_data, bc)
      else if ltb ordinal expected
      then (ok tt, bc)
      else Blockchain.update_block_from_peers p fs block bc
]

-- The loop of `init_pull_from_others`, which stops at the first error
unfoldable pub add_blocks :
    Platform → FileSystem → List Block → Exec Blockchain BlockchainError (Unit {0})
add_blocks p fs [] = pure tt
add_blocks p fs (block ∷ blocks) = do
  add_block p fs block.header.ordinal block
  add_blocks p fs blocks

-- `BlockchainService::init_pull_from_others`
unfoldable pub init_pull_from_others : Platform → FileSystem → Network → PeerId → Action Ordinal
unfolding query_blockchain_ordinal pull_block_from_other_nodes
init_pull_from_others p fs net other_peer_id = do
  ordinal ← query_blockchain_ordinal p net other_peer_id
  blocks ← pull_block_from_other_nodes p net other_peer_id 0 ordinal
  in_blockchain (add_blocks p fs blocks)
  pure ordinal

-- `BlockchainService::pull_blocks` and `query_last_block`
unfoldable pub pull_blocks :
    Ordinal → Ordinal → BlockchainService → Outcome BlockchainError (List Block)
pull_blocks start end s = Blockchain.pull_blocks start end s.blockchain

unfoldable pub query_last_block : BlockchainService → Option Block
query_last_block s = Blockchain.last_block s.blockchain
