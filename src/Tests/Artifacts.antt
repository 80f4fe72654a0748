-- ===== src/Tests/Artifacts.antt =====
-- The theorems on the artifact service, at a node whose only peer sends one byte for any artifact.
use pyrsia.Base.{
  ◌≡◌, ◌≢◌, ◌↔◌, ◌⊎◌, refl, true, false, some, none, [], ◌∷◌, ◌++◌, Bytes, length, codes, get_last?,
}
use pyrsia.Outcome.{Outcome, ok, err}
use pyrsia.TransparencyLog.Types.{docker, invalid_hash}
use pyrsia.TransparencyLog.Database.{bytes_eq, keep, is_plain}
use pyrsia.TransparencyLog.Authorized.{get_authorized_nodes}
use pyrsia.TransparencyLog.Reading
use pyrsia.TransparencyLog.Reading.{sort_by_timestamp}
use pyrsia.Network.Types.{Command, Answer, PeerId}
use pyrsia.Network.Types
use pyrsia.Network.Client.{reply, list_providers, request_artifact}
use pyrsia.Network.Client.IdlePeer.{get_idle_peer}
use pyrsia.BuildService.Types.{initialization_failed, build_status_failed}
use pyrsia.ArtifactService.Storage.{
  Files, System, ArtifactStorage, io_error, artifact_file_path, base_file_path,
  create_artifact_file, push_artifact, pull_artifact,
}
use pyrsia.ArtifactService.Storage.Kept.{push-pull_artifact}
use pyrsia.ArtifactService.Service.{
  ArtifactService, ArtifactError, World, log_failed, fetch, get_artifact, verify_artifact,
  get_artifact_locally, get_artifact_from_peers, get_artifact_from_peer, put_artifact,
  request_build,
}
use pyrsia.ArtifactService.Service.Verified.{hash_of, get_artifact_verified}
use pyrsia.ArtifactService.Service.Poisoned.{get_artifact_poisoned}
use pyrsia.ArtifactService.Service.Requests.{has_local, checked, asked, request_build_lem}
use pyrsia.Tests.Ordering.{database, first_of_each, sort_newest}
use pyrsia.Tests.Logs.{added, joined}
use pyrsia.Tests.Metrics.{floats}

abbrev answer : Command → Answer
answer (Types.list_providers _ _) = Types.peers (codes "other" ∷ [])
answer (Types.request_idle_metric _ _) = Types.metric (1 ∷ [])
answer (Types.request_artifact _ _ _) = Types.artifact (9 ∷ [])
answer (Types.request_build _ _ _ _) = Types.build_id (codes "b")
answer _ = Types.done

abbrev system : System
system = record {
  join = λ dir name. dir ++ 47 ∷ name;
  set_extension = λ path ext. path ++ 46 ∷ ext;
  extension = λ _. none;
  can_create = λ _. true;
  copy = λ _ bytes. (bytes, true);
  can_read = λ _. true;
}

abbrev storage : ArtifactStorage
storage = record { repository_path = codes "/a" }

abbrev pub world : World (Unit {0})
world = record {
  storage = storage;
  sys = system;
  db = database;
  out = record { to_json = λ log. some log.id; adds_block = λ _. true };
  from_json = λ _. none;
  sender = record { ask = λ command s. (reply (answer (command 0)), s); tell = λ _ s. (true, s) };
  floats = floats;
  local_peer_id = codes "me";
  from_str = λ peer. some peer;
  sha256 = λ bytes. length bytes ∷ [];
  hex = λ digest. digest;
  start_build = λ _ _. ok (codes "b");
  build_status = λ _. err build_status_failed;
}

abbrev no_files : Files
no_files _ = none

abbrev pub node : ArtifactService (Unit {0})
node = record {
  files = no_files;
  logs = record { table = added ∷ joined ∷ []; submitted = [] };
  network = tt;
  spawned = [];
}

is_added : Reading.get_artifact database docker (codes "alpine/1") (added ∷ joined ∷ []) ≡ ok added
unfolding Reading.get_artifact is_plain keep bytes_eq
is_added = refl

fetches : (fetch world [] node).0 ≡ ok (9 ∷ [])
unfolding fetch get_artifact_locally get_artifact_from_peers get_artifact_from_peer put_artifact
    push_artifact pull_artifact create_artifact_file artifact_file_path base_file_path bytes_eq
    list_providers request_artifact get_idle_peer
fetches = refl

get_artifact_verified_example :
    ((get_artifact world docker (codes "alpine/1") node).0 ≡ ok (9 ∷ []))
    ↔ (((fetch world [] node).0 ≡ ok (9 ∷ [])) × (hash_of world (9 ∷ []) ≡ []))
get_artifact_verified_example =
    get_artifact_verified world docker (codes "alpine/1") added node is_added (9 ∷ [])

abbrev later : ArtifactService (Unit {0})
later = (get_artifact world docker (codes "alpine/1") node).1

is_added_later : Reading.get_artifact database docker (codes "alpine/1") later.logs.table ≡ ok added
unfolding Reading.get_artifact is_plain keep bytes_eq fetch get_artifact_locally
    get_artifact_from_peers get_artifact_from_peer put_artifact pull_artifact push_artifact
    create_artifact_file list_providers request_artifact get_idle_peer get_artifact verify_artifact
    artifact_file_path
is_added_later = refl

get_artifact_poisoned_example :
    let bad : Outcome ArtifactError Bytes =
      err (log_failed (invalid_hash (codes "alpine/1") (1 ∷ []) [])) in
    ((get_artifact world docker (codes "alpine/1") node).0 ≡ bad)
    × (pull_artifact system storage added.artifact_id
          (get_artifact world docker (codes "alpine/1") node).1.files
        ≡ ok (9 ∷ []))
    × (get_artifact world docker (codes "alpine/1") later ≡ (bad, later))
get_artifact_poisoned_example =
    get_artifact_poisoned world docker (codes "alpine/1") added (9 ∷ []) node later is_added fetches
      (λ e. cc) refl is_added_later

push-pull_artifact_example :
    let (r, files) = push_artifact system storage (9 ∷ []) (codes "x") no_files in
    (r ≡ ok tt)
    × (pull_artifact system storage (codes "x") files ≡ ok (9 ∷ []))
    × ((other : Bytes) → other ≢ artifact_file_path system storage (codes "x") → files other ≡ none)
    × ((again : Bytes)
        → push_artifact system storage again (codes "x") files ≡ (err io_error, files))
push-pull_artifact_example =
    push-pull_artifact system storage (codes "x") (9 ∷ []) no_files refl refl refl refl

authorized_peer :
    get_authorized_nodes database (λ peer. some peer) (added ∷ joined ∷ []) ≡ ok (codes "peer" ∷ [])
unfolding get_authorized_nodes keep bytes_eq first_of_each sort_newest
authorized_peer = refl

request_build_lem_example :
    ((codes "peer" ∷ [] ≡ [])
      × (request_build world docker (codes "alpine") node ≡ (err initialization_failed, node)))
    ⊎ ((has_local (codes "me") (codes "peer" ∷ []) ≡ true)
        × (request_build world docker (codes "alpine") node
            ≡ checked world docker (codes "alpine") node (ok (codes "b"), node)))
    ⊎ ((peer : PeerId) × (has_local (codes "me") (codes "peer" ∷ []) ≡ false)
        × (get_last? (codes "peer" ∷ []) ≡ some peer)
        × (request_build world docker (codes "alpine") node
            ≡ checked world docker
                (codes "alpine")
                node
                (asked world docker (codes "alpine") node peer)))
request_build_lem_example =
    request_build_lem world docker (codes "alpine") node (codes "peer" ∷ []) authorized_peer

abbrev alone : ArtifactService (Unit {0})
alone = record node { logs = record { table = added ∷ []; submitted = [] } }

nobody : get_authorized_nodes database (λ peer. some peer) (added ∷ []) ≡ ok []
unfolding get_authorized_nodes keep bytes_eq first_of_each sort_newest
nobody = refl
