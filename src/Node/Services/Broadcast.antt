-- ===== src/Node/Services/Broadcast.antt =====
-- From the broadcast of a block to the transparency log.
use pyrsia.Base.{◌≡◌, ◌⊎◌, inl, inr, false, refl, true, some, [], ◌∷◌, Bytes, arith}
use pyrsia.Outcome.{ok}
use pyrsia.Blockchain.Types.{Block, Ordinal}
use pyrsia.Blockchain.Platform.{Platform}
use pyrsia.Blockchain.Block
use pyrsia.Blockchain.Disk.{FileSystem}
use pyrsia.BlockchainService.{add_block}
use pyrsia.BlockchainService.Responder.{BlockchainEventLoop, handle_block_broadcast}
use pyrsia.TransparencyLog.Types.{TransparencyLog}
use pyrsia.TransparencyLog.Database.{open_db, is_plain}
use pyrsia.TransparencyLog.Reading.{find_transparency_log}
use pyrsia.TransparencyLog.Writing.{has_id}
use pyrsia.TransparencyLog.Writing.Keys.{IsKeyed, write_if_not_exists_idempotent}
use pyrsia.ArtifactService.Service.{ArtifactService, World, handle_block_added}
use pyrsia.Node.Services.{block_listener}

-- A block that another node broadcasts, that is added to the chain without an error, and that carries
-- one payload, which is a log: the chain is then as `add_block` leaves it, and what the node finds
-- under the identifier in its transparency log is that log, when no row had the identifier, or else
-- what it found there before, given that the database opens and takes the row, and that no two of
-- its rows have the same identifier. Identifiers with a quote or a zero are left out.
pub block_broadcast-find_transparency_log :
    {S : Type 0} (w : World S) (p : Platform) (fs : FileSystem) (ordinal : Ordinal) (block : Block)
    (payload : Bytes) (log : TransparencyLog) (n : BlockchainEventLoop (ArtifactService S))
    → Block.fetch_payload block ≡ payload ∷ []
    → (add_block p fs ordinal block n.blockchain_service.blockchain).0 ≡ ok tt
    → w.from_json payload ≡ some log
    → open_db w.db ≡ ok tt
    → w.db.accepts log ≡ true
    → is_plain log.id ≡ true
    → IsKeyed n.artifact_service.logs.table
    → (n' : BlockchainEventLoop (ArtifactService S)) × (kept : TransparencyLog)
      × (handle_block_broadcast p fs (block_listener w) ordinal block n ≡ (ok tt, n'))
      × (n'.blockchain_service.blockchain
          ≡ (add_block p fs ordinal block n.blockchain_service.blockchain).1)
      × (find_transparency_log w.db log.id n'.artifact_service.logs.table ≡ ok kept)
      × (((has_id log.id n.artifact_service.logs.table ≡ false) × (kept ≡ log))
          ⊎ (find_transparency_log w.db log.id n.artifact_service.logs.table ≡ ok kept))
unfolding handle_block_broadcast handle_block_added
block_broadcast-find_transparency_log w p fs ordinal block payload log n one added parsed opened
      accepted plain keyed =
    let (logs, kept, written, found, which, _) =
      write_if_not_exists_idempotent w.db log n.artifact_service.logs opened accepted plain keyed in
    (
      record {
        blockchain_service = record n.blockchain_service {
          blockchain = (add_block p fs ordinal block n.blockchain_service.blockchain).1;
        };
        artifact_service = record n.artifact_service { logs = logs };
      },
      kept,
      ground (arith, one, added, parsed, written),
      refl,
      found,
      elim which [ inl (new, same, _) ↦ inl (new, same) | inr (before, _) ↦ inr before ],
    )
