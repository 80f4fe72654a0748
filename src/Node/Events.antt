-- ===== src/Node/Events.antt =====
-- The loop of pyrsia_node/src/main.rs over the events of the network.
pub mod Panics
use pyrsia.Base.{ℕ, Option, none, some, List, [], ◌∷◌, Bytes}
use pyrsia.Outcome.{Outcome, ok, err, panicked}
use pyrsia.TransparencyLog.Types.{PackageType}
use pyrsia.Blockchain.Platform.{Platform}
use pyrsia.Blockchain.Disk.{FileSystem}
use pyrsia.BlockchainService.Responder.{
  BlockchainEventLoop, Listener, handle_incoming_blockchain_command,
}
use pyrsia.Network.Types.{
  PeerId, PyrsiaEvent, artifact_requested, build_requested, build_to_verify, idle_metric_requested,
  blockchain_requested, build_status_requested,
}
use pyrsia.Network.Client
use pyrsia.BuildService.Types.{BuildError}
use pyrsia.ArtifactService.Service.{ArtifactService, World}
use pyrsia.Node.Handlers.{
  Handling, in_client, handle_request_artifact, handle_request_build, handle_verify_build,
  handle_request_idle_metric, handle_request_build_status,
}

-- What the handlers work on: the artifact service with its network, and the blockchain event loop at
-- the other end of its client
pub record Node (S L : Type 0) : Type 0 where
  pub artifact_service : ArtifactService S
  pub blockchain : BlockchainEventLoop L

-- The answers that differ from event to event
pub record Moment (S : Type 0) : Type 0 where
  pub world : World S
  pub verify_build : PeerId → PackageType → Bytes → Outcome BuildError Bytes
  pub quality_metric : Bytes

abbrev pub Served : Type 0 → Type 0 → Type 0
Served S L = Outcome (Unit {0}) (Unit {0}) × Node S L

module _ {S L : Type 0} (p : Platform) (fs : FileSystem) (listener : Listener L) where
  -- `if let Err(error) = .. { warn!(..) }`: an error is logged, and a panic is one of the node.
  abbrev pub logged : Handling S (Unit {0}) → Node S L → Served S L
  logged m n =
      let (r, a) = m n.artifact_service in
      let n' = record n { artifact_service = a } in
      elim r [ panicked ↦ (panicked, n') | _ ↦ (ok tt, n') ]

  -- The answer to a blockchain request, if it came over a channel
  abbrev pub answer_blockchain : Moment S → Option ℕ → Bytes → Node S L → Served S L
  answer_blockchain m none response n = (ok tt, n)
  answer_blockchain m (some channel) response n =
      logged (in_client m.world (Client.respond_blockchain m.world.sender response channel)) n

  -- The match of the loop. A panic of the blockchain's own task is not told apart from one here.
  unfoldable pub handle_pyrsia_event : Moment S → PyrsiaEvent → Node S L → Served S L
  handle_pyrsia_event m (artifact_requested artifact_id channel) =
      logged (handle_request_artifact m.world artifact_id channel)
  handle_pyrsia_event m (build_requested t id channel) =
      logged (handle_request_build m.world t id channel)
  handle_pyrsia_event m (build_to_verify peer_id t id) =
      logged (handle_verify_build m.world m.verify_build peer_id t id)
  handle_pyrsia_event m (idle_metric_requested channel) =
      logged (handle_request_idle_metric m.world m.quality_metric channel)
  handle_pyrsia_event m (blockchain_requested bytes channel) = λ n.
      let (r, b) = handle_incoming_blockchain_command p fs listener bytes n.blockchain in
      let n' = record n { blockchain = b } in
      elim r [
        | ok response ↦ answer_blockchain m channel response n'
        | err _ ↦ (ok tt, n')
        | panicked ↦ (panicked, n')
      ]
  handle_pyrsia_event m (build_status_requested build_id channel) =
      logged (handle_request_build_status m.world build_id channel)

  -- The loop, over some events; it goes on for as long as no handler panics.
  unfoldable pub serve : List (Moment S × PyrsiaEvent) → Node S L → Served S L
  serve [] n = (ok tt, n)
  serve ((m, event) ∷ rest) n =
      let (r, n') = handle_pyrsia_event m event n in
      elim r [ ok _ ↦ serve rest n' | err e ↦ (err e, n') | panicked ↦ (panicked, n') ]
