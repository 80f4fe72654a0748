-- ===== src/TransparencyLog/Writing.antt =====
-- What transparency_log/log.rs writes.
pub mod Keys
pub mod Nodes
use pyrsia.Base.{
  ℕ, Bool, true, false, not, Option, none, some, List, [], ◌∷◌, ◌++◌, Bytes, ◌&&◌, if◌then◌else◌,
}
use pyrsia.Outcome.{ok, err, panicked, ok_or}
use pyrsia.Exec.{Exec, lift, pure, ◌>>=◌, ◌>>◌}
use pyrsia.TransparencyLog.Types.{
  TransparencyLog, TransparencyLogError, AddArtifactRequest, add_artifact, add_node, log_not_found,
  database_failure, serde_json_failure, blockchain_failure,
}
use pyrsia.TransparencyLog.Database.{Database, Table, open_db, bytes_eq}
use pyrsia.TransparencyLog.Reading.{find_transparency_log, verify_node_does_not_exist}

-- The database file, and the payloads that were handed to the blockchain, newest first.
pub record TransparencyLogService : Type 0 where
  pub table : Table
  pub submitted : List Bytes

-- serde_json's encoder, and whether the blockchain takes a payload
pub record Outside : Type 0 where
  pub to_json : TransparencyLog → Option Bytes
  pub adds_block : Bytes → Bool

-- What a call draws: five random identifiers and the seconds since 1970.
pub record Draws : Type 0 where
  pub id : Bytes
  pub artifact_id : Bytes
  pub source_id : Bytes
  pub node_id : Bytes
  pub node_public_key : Bytes
  pub now : ℕ

abbrev pub Action : Type 0 → Type 0
Action = Exec TransparencyLogService TransparencyLogError

-- `TransparencyLog::from`
unfoldable pub from : Draws → AddArtifactRequest → TransparencyLog
from draws request = record {
  id = draws.id;
  package_type = some request.package_type;
  package_specific_id = request.package_specific_id;
  num_artifacts = request.num_artifacts;
  package_specific_artifact_id = request.package_specific_artifact_id;
  artifact_hash = request.artifact_hash;
  source_hash = [];
  artifact_id = draws.artifact_id;
  source_id = draws.source_id;
  timestamp = draws.now;
  operation = add_artifact;
  node_id = draws.node_id;
  node_public_key = draws.node_public_key;
}

-- A row has the identifier: `id` is the primary key.
unfoldable pub has_id : Bytes → Table → Bool
has_id id [] = false
has_id id (log ∷ logs) = if bytes_eq log.id id then true else has_id id logs

-- `write_transparency_log`
unfoldable pub write_transparency_log : Database → TransparencyLog → Action (Unit {0})
unfolding open_db
write_transparency_log db log = do
  lift (open_db db)
  (λ s.
      if db.accepts log && not (has_id log.id s.table)
      then (ok tt, record s { table = s.table ++ log ∷ [] })
      else (err database_failure, s))

-- `write_if_not_exists`
unfoldable pub write_if_not_exists : Database → TransparencyLog → Action (Unit {0})
unfolding find_transparency_log write_transparency_log
write_if_not_exists db log s = elim (find_transparency_log db log.id s.table) [
  | err e ↦ elim e [ log_not_found _ ↦ write_transparency_log db log s | _ ↦ (ok tt, s) ]
  | ok _ ↦ (ok tt, s)
  | panicked ↦ (panicked, s)
]

-- `add_artifact`
unfoldable pub add_artifact_log :
    Database → Outside → Draws → AddArtifactRequest → Action (TransparencyLog × Bytes)
unfolding write_transparency_log from
add_artifact_log db out draws request = do
  let transparency_log = from draws request
  payload ← lift (ok_or (out.to_json transparency_log) serde_json_failure)
  write_transparency_log db transparency_log
  pure (transparency_log, payload)

-- The call of `blockchain_event_client.add_block`
unfoldable pub submit : Outside → Bytes → Action (Unit {0})
submit out payload s =
    if out.adds_block payload
    then (ok tt, record s { submitted = payload ∷ s.submitted })
    else (err blockchain_failure, s)

-- `broadcast_artifacts`
unfoldable pub broadcast_artifacts : Outside → List Bytes → Action (Unit {0})
unfolding submit
broadcast_artifacts out [] = pure tt
broadcast_artifacts out (payload ∷ payloads) = do
  submit out payload
  broadcast_artifacts out payloads

-- The record that `add_authorized_node` makes for a node
unfoldable pub node_log : Draws → Bytes → TransparencyLog
node_log draws peer_id = record {
  id = draws.id;
  package_type = none;
  package_specific_id = [];
  num_artifacts = 0;
  package_specific_artifact_id = [];
  artifact_hash = [];
  source_hash = [];
  artifact_id = [];
  source_id = [];
  timestamp = draws.now;
  operation = add_node;
  node_id = peer_id;
  node_public_key = draws.node_public_key;
}

-- `add_authorized_node`
unfoldable pub add_authorized_node : Database → Outside → Draws → Bytes → Action (Unit {0})
unfolding node_log submit write_transparency_log
add_authorized_node db out draws peer_id = do
  (λ s. (verify_node_does_not_exist db peer_id s.table, s))
  let transparency_log = node_log draws peer_id
  payload ← lift (ok_or (out.to_json transparency_log) serde_json_failure)
  submit out payload
  write_transparency_log db transparency_log
