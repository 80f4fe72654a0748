-- ===== src/Tests/Serving.antt =====
-- The theorems on the loops of the node and of its blockchain, at a gossiped message and two events.
use pyrsia.Base.{
  ℕ, ◌≡◌, refl, true, some, ap, ◌∙◌, arith, none, List, [], ◌∷◌, inl, inr, false, ◌⊎◌,
}
use pyrsia.Outcome.{ok, panicked}
use pyrsia.BlockchainService.Command.{to_u8, push_to_peer}
use pyrsia.BlockchainService.Events
use pyrsia.BlockchainService.Events.{Answering, BlockchainEvent}
use pyrsia.BlockchainService.Events.Answered.{AreAnswered, run-AreAnswered}
use pyrsia.Network.Types.{blockchain_requested, idle_metric_requested}
use pyrsia.Node.Events.{Node, Moment, serve}
use pyrsia.Node.Events.Panics.{serve-panicked}
use pyrsia.Blockchain.Blockchain
use pyrsia.BlockchainService.{add_block}
use pyrsia.BlockchainService.Sync.{add_block_lem}
use pyrsia.BlockchainService.Responder.{BlockchainEventLoop, handle_block_broadcast}
use pyrsia.TransparencyLog.Writing.{has_id}
use pyrsia.TransparencyLog.Types.{TransparencyLog}
use pyrsia.TransparencyLog.Reading.{find_transparency_log}
use pyrsia.ArtifactService.Service.{ArtifactService, World}
use pyrsia.Node.Services.{block_listener}
use pyrsia.Node.Services.Broadcast.{block_broadcast-find_transparency_log}
use pyrsia.Tests.Chains.{first, first_block, first_payload, first-IsConsistent, first_length}
use pyrsia.Tests.Logs.{added, empty, opened, plain_id, empty-IsKeyed}
use pyrsia.Tests.Ordering.{database}
use pyrsia.Tests.Artifacts.{world, node}
use pyrsia.Tests.Nodes.{listener, peer}
use pyrsia.Tests.Sample.{platform, file_system, setting}

abbrev moment : Moment (Unit {0})
moment = record { world = world; verify_build = λ _ _ _. ok []; quality_metric = [] }

abbrev serving : Node (Unit {0}) ℕ
serving = record { artifact_service = node; blockchain = peer }

starts_with_push : 2 ∷ 7 ∷ [] ≡ to_u8 push_to_peer ∷ 7 ∷ []
unfolding to_u8
starts_with_push = refl

serve-panicked_example :
    serve platform file_system listener
      ((moment, blockchain_requested (2 ∷ 7 ∷ []) none) ∷ (moment, idle_metric_requested 1) ∷ [])
      serving
    ≡ (panicked, serving)
serve-panicked_example =
    serve-panicked platform file_system listener moment (2 ∷ 7 ∷ []) none
      ((moment, idle_metric_requested 1) ∷ []) serving (inr (inl (7 ∷ [], starts_with_push)))

abbrev turn : Events.Moment
turn = record {
  setting = setting;
  net = record { broadcast_block = λ _. true; request_blockchain = λ _ _. none };
}

abbrev answering : Answering ℕ
answering = record { event_loop = peer; sent = [] }

abbrev asked : List (Events.Moment × BlockchainEvent)
asked = (turn, Events.add_block (5 ∷ []) 3) ∷ (turn, Events.block_ordinal_queried 4) ∷ []

run-AreAnswered_example : AreAnswered listener asked answering (Events.run listener asked answering)
run-AreAnswered_example = run-AreAnswered listener asked answering

abbrev reading : World (Unit {0})
reading = record world { from_json = λ _. some added }

abbrev receiving : BlockchainEventLoop (ArtifactService (Unit {0}))
receiving = record {
  blockchain_service = peer.blockchain_service;
  artifact_service = record node { logs = empty };
}

known_block : (add_block platform file_system 0 first_block first).0 ≡ ok tt
known_block =
    ap (λ r. r.0)
      (add_block_lem platform file_system 0 first_block first first-IsConsistent.sequential
        (omega (arith, first_length)))
    ∙ ground (arith, first_length)

block_broadcast-find_transparency_log_example :
    (n' : BlockchainEventLoop (ArtifactService (Unit {0}))) × (kept : TransparencyLog)
    × (handle_block_broadcast platform file_system (block_listener reading) 0 first_block receiving
        ≡ (ok tt, n'))
    × (n'.blockchain_service.blockchain ≡ (add_block platform file_system 0 first_block first).1)
    × (find_transparency_log database added.id n'.artifact_service.logs.table ≡ ok kept)
    × (((has_id added.id receiving.artifact_service.logs.table ≡ false) × (kept ≡ added))
        ⊎ (find_transparency_log database added.id receiving.artifact_service.logs.table ≡ ok kept))
block_broadcast-find_transparency_log_example =
    block_broadcast-find_transparency_log reading platform file_system 0 first_block
      Blockchain.genesis_payload added receiving first_payload known_block refl opened refl plain_id
      empty-IsKeyed
