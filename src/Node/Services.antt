-- ===== src/Node/Services.antt =====
-- How the services of a node are put together: the artifact service behind the loops of
-- src/blockchain_service/event.rs and src/build_service/event.rs, and a node that joins the network in
-- pyrsia_node/src/main.rs.
pub mod Broadcast
use pyrsia.Base.{ℕ, Bool, true, false, List, [], ◌∷◌, Bytes}
use pyrsia.Outcome.{Outcome, ok, err, panicked, map_err}
use pyrsia.Exec.{Exec, pure, ◌>>=◌, ◌>>◌}
use pyrsia.Blockchain.Types.{Block, BlockchainError, anyhow_error}
use pyrsia.Blockchain.Platform.{Platform}
use pyrsia.Blockchain.Block
use pyrsia.Blockchain.Disk.{FileSystem}
use pyrsia.BlockchainService.{PeerId, Network, init_pull_from_others, pull_blocks}
use pyrsia.BlockchainService.Responder.{Listener, BlockchainEventLoop, in_service}
use pyrsia.TransparencyLog.Writing.{Draws}
use pyrsia.BuildService.EventLoop.{ArtifactBuilds}
use pyrsia.ArtifactService.Service.{ArtifactService, World, handle_block_added, handle_build_result}

module _ {S : Type 0} (w : World S) where
  -- The artifact service behind the loop of the blockchain
  abbrev pub block_listener : Listener (ArtifactService S)
  block_listener = record {
    handle_block_added = λ payloads s.
        let (r, s') = handle_block_added w payloads s in (map_err (λ _. anyhow_error) r, s');
  }

  abbrev pub is_ok : {E : Type 0} → Outcome E (Unit {0}) → Bool
  is_ok (ok _) = true
  is_ok _ = false

  -- The artifact service behind the loop of the build service
  abbrev pub artifact_builds : (ℕ → Draws) → ArtifactBuilds (ArtifactService S)
  artifact_builds draws = record {
    handle_build_result =
        λ build_id result s. let (r, s') = handle_build_result w draws result s in (is_ok r, s');
  }

  module _ (p : Platform) (fs : FileSystem) where
    abbrev Joining : Type 0 → Type 0
    Joining = Exec (BlockchainEventLoop (ArtifactService S)) BlockchainError

    -- The loop of `pull_block_from_other_nodes` of main.rs over the blocks of the local chain
    unfoldable pub add_each_block : List Block → Joining (Unit {0})
    add_each_block [] = pure tt
    add_each_block (block ∷ rest) = do
      (λ n.
          let (r, a) =
            block_listener.handle_block_added (Block.fetch_payload block) n.artifact_service in
          (r, record n { artifact_service = a }))
      add_each_block rest

    -- `pull_block_from_other_nodes` of main.rs
    unfoldable pub pull_block_from_other_nodes : Network → PeerId → Joining (Unit {0})
    pull_block_from_other_nodes net other_peer_id = do
      ordinal ← in_service p fs block_listener (init_pull_from_others p fs net other_peer_id)
      blocks ← (λ n. (pull_blocks 1 ordinal n.blockchain_service, n))
      add_each_block blocks
