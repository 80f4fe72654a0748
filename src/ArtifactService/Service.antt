-- ===== src/ArtifactService/Service.antt =====
-- src/artifact_service/service.rs.
pub mod Verified
pub mod Poisoned
pub mod Requests
use pyrsia.Base.{
  ℕ, suc, ◌%◌, ◌^◌, ◌==◌, Bool, true, false, Option, none, some, List, [], ◌∷◌, ◌++◌, Bytes, length,
  if◌then◌else◌,
}
use pyrsia.Outcome.{Outcome, ok, err, panicked, map_err, ok_or}
use pyrsia.Exec.{Exec, lift, pure, modify, ◌>>=◌, ◌>>◌}
use pyrsia.TransparencyLog.Types.{
  TransparencyLog, TransparencyLogError, PackageType, AddArtifactRequest, invalid_hash,
}
use pyrsia.TransparencyLog.Database.{Database, bytes_eq}
use pyrsia.TransparencyLog.Authorized.{get_authorized_nodes}
use pyrsia.TransparencyLog.Reading.{verify_package_can_be_added, search_transparency_logs}
use pyrsia.TransparencyLog.Reading
use pyrsia.TransparencyLog.Writing.{
  TransparencyLogService, Outside, Draws, add_artifact_log, broadcast_artifacts,
  write_if_not_exists,
}
use pyrsia.Network.Types.{PeerId, BuildStatus}
use pyrsia.Network.Client.{CommandSender, ClientError, list_providers, request_artifact, provide}
use pyrsia.Network.Client
use pyrsia.Network.Client.IdlePeer.{Floats, get_idle_peer}
use pyrsia.VerificationService.{BuildResultArtifact}
use pyrsia.BuildService.Types.{
  BuildError, BuildResult, initialization_failed, artifact_already_exists, build_status_failed,
}
use pyrsia.ArtifactService.Storage.{
  Files, System, ArtifactStorage, IoError, io_error, push_artifact, pull_artifact,
}

-- What `anyhow::Error` carries here
pub data ArtifactError : Type 0 where
  io_failed : IoError → ArtifactError
  log_failed : TransparencyLogError → ArtifactError
  client_failed : ClientError → ArtifactError
  not_available : Bytes → ArtifactError
  serde_json_failed : ArtifactError

-- `ArtifactService` with what its parts change: the files, the transparency log, the event loop of the
-- network at the other end of the client, and the builds that it spawned.
pub record ArtifactService (S : Type 0) : Type 0 where
  pub files : Files
  pub logs : TransparencyLogService
  pub network : S
  pub spawned : List (PackageType × Bytes)

-- What the service calls and does not change: the storage, the file system, SQLite, serde_json and the
-- blockchain, the client's channel and peer, the text of a peer, SHA-256, and the answers of the build
-- event loop.
pub record World (S : Type 0) : Type 0 where
  pub storage : ArtifactStorage
  pub sys : System
  pub db : Database
  pub out : Outside
  pub from_json : Bytes → Option TransparencyLog
  pub sender : CommandSender S
  pub floats : Floats
  pub local_peer_id : PeerId
  pub from_str : Bytes → Option PeerId
  pub sha256 : Bytes → Bytes
  pub hex : Bytes → Bytes
  pub start_build : PackageType → Bytes → Outcome BuildError Bytes
  pub build_status : Bytes → Outcome BuildError BuildStatus

-- `find_or_last` for the local peer
unfoldable pub find_or_last : PeerId → List PeerId → Option PeerId
find_or_last local [] = none
find_or_last local (peer ∷ peers) =
    let later = find_or_last local peers in
    if bytes_eq local peer then some peer else (elim later [ none ↦ some peer | some p ↦ some p ])

module _ {S : Type 0} where
  abbrev pub on_logs :
      {A : Type 0}
      → Exec TransparencyLogService TransparencyLogError A
      → Exec (ArtifactService S) ArtifactError A
  on_logs m s = let (r, logs) = m s.logs in (map_err log_failed r, record s { logs = logs })

  abbrev pub on_network :
      {A : Type 0} → Exec S ClientError A → Exec (ArtifactService S) ArtifactError A
  on_network m s =
      let (r, network) = m s.network in (map_err client_failed r, record s { network = network })

module _ {S : Type 0} (w : World S) where
  -- `put_artifact`
  unfoldable pub put_artifact : Bytes → Bytes → Exec (ArtifactService S) ArtifactError (Unit {0})
  unfolding push_artifact
  put_artifact artifact_id bytes s =
      let (r, files) = push_artifact w.sys w.storage bytes artifact_id s.files in
      (map_err io_failed r, record s { files = files })

  -- `put_artifact_from_build_result`
  unfoldable pub put_artifact_from_build_result :
      Bytes → Bytes → Exec (ArtifactService S) ArtifactError (Unit {0})
  put_artifact_from_build_result artifact_location artifact_id s =
      elim (s.files artifact_location) [
        | none ↦ (err (io_failed io_error), s)
        | some bytes ↦ put_artifact artifact_id bytes s
      ]

  -- `get_artifact_locally`
  unfoldable pub get_artifact_locally : Bytes → Exec (ArtifactService S) ArtifactError Bytes
  get_artifact_locally artifact_id s =
      (map_err io_failed (pull_artifact w.sys w.storage artifact_id s.files), s)

  -- `get_artifact_from_peer`
  unfoldable pub get_artifact_from_peer :
      PeerId → Bytes → Exec (ArtifactService S) ArtifactError Bytes
  get_artifact_from_peer peer_id artifact_id = do
    artifact ← on_network (request_artifact w.sender peer_id artifact_id)
    put_artifact artifact_id artifact
    get_artifact_locally artifact_id

  -- `get_artifact_from_peers`
  unfoldable pub get_artifact_from_peers : Bytes → Exec (ArtifactService S) ArtifactError Bytes
  get_artifact_from_peers artifact_id = do
    providers ← on_network (list_providers w.sender artifact_id)
    idle ← on_network (get_idle_peer w.sender w.floats providers)
    (elim idle [
      | some peer_id ↦ get_artifact_from_peer peer_id artifact_id
      | none ↦ lift (err (not_available artifact_id))
    ])

  -- `verify_artifact`
  unfoldable pub verify_artifact : TransparencyLog → Bytes → Outcome TransparencyLogError (Unit {0})
  verify_artifact log artifact =
      let calculated_hash = w.hex (w.sha256 artifact) in
      if bytes_eq log.artifact_hash calculated_hash
      then ok tt
      else err (invalid_hash log.package_specific_artifact_id calculated_hash log.artifact_hash)

  -- The match in `get_artifact`
  unfoldable pub fetch : Bytes → Exec (ArtifactService S) ArtifactError Bytes
  fetch artifact_id s =
      let (r, s') = get_artifact_locally artifact_id s in
      elim r [
        | ok artifact ↦ (ok artifact, s')
        | err _ ↦ get_artifact_from_peers artifact_id s'
        | panicked ↦ (panicked, s')
      ]

  -- `get_artifact`
  unfoldable pub get_artifact : PackageType → Bytes → Exec (ArtifactService S) ArtifactError Bytes
  get_artifact t said = do
    log ← on_logs (λ l. (Reading.get_artifact w.db t said l.table, l))
    artifact ← fetch log.artifact_id
    lift (map_err log_failed (verify_artifact log artifact))
    pure artifact

  -- `get_artifact_or_build`
  unfoldable pub get_artifact_or_build :
      PackageType → Bytes → Bytes → Exec (ArtifactService S) ArtifactError Bytes
  get_artifact_or_build t id said s =
      let (r, s') = get_artifact t said s in
      elim r [
        | ok artifact ↦ (ok artifact, s')
        | err e ↦ (err e, record s' { spawned = s'.spawned ++ (t, id) ∷ [] })
        | panicked ↦ (panicked, s')
      ]

  -- The loop of `handle_build_result` from some artifact on, each of which draws anew, with the
  -- payloads so far
  unfoldable pub add_each :
      BuildResult
      → List Bytes
      → List (BuildResultArtifact × Draws)
      → Exec (ArtifactService S) ArtifactError (List Bytes)
  add_each result payloads [] = pure payloads
  add_each result payloads ((artifact, draws) ∷ rest) = do
    let request : AddArtifactRequest = record {
      package_type = result.package_type;
      package_specific_id = result.package_specific_id;
      num_artifacts = length result.artifacts % 2 ^ 32;
      package_specific_artifact_id = artifact.artifact_specific_id;
      artifact_hash = artifact.artifact_hash;
    }
    (log, payload) ← on_logs (add_artifact_log w.db w.out draws request)
    put_artifact_from_build_result artifact.artifact_location log.artifact_id
    on_network (provide w.sender log.artifact_id)
    add_each result (payloads ++ payload ∷ []) rest

  -- The artifacts with what each of them draws
  unfoldable pub with_draws :
      (ℕ → Draws) → ℕ → List BuildResultArtifact → List (BuildResultArtifact × Draws)
  with_draws draws i [] = []
  with_draws draws i (artifact ∷ rest) = (artifact, draws i) ∷ with_draws draws (suc i) rest

  -- `handle_build_result`
  unfoldable pub handle_build_result :
      (ℕ → Draws) → BuildResult → Exec (ArtifactService S) ArtifactError (Unit {0})
  handle_build_result draws result = do
    payloads ← add_each result [] (with_draws draws 0 result.artifacts)
    on_logs (broadcast_artifacts w.out payloads)

  -- `handle_block_added`
  unfoldable pub handle_block_added : List Bytes → Exec (ArtifactService S) ArtifactError (Unit {0})
  handle_block_added [] = pure tt
  handle_block_added (payload ∷ []) = do
    log ← lift (ok_or (w.from_json payload) serde_json_failed)
    on_logs (write_if_not_exists w.db log)
  handle_block_added (_ ∷ _ ∷ _) = pure tt

  -- `get_logs_for_artifact`
  unfoldable pub get_logs_for_artifact :
      PackageType → Bytes → Exec (ArtifactService S) ArtifactError (List TransparencyLog)
  get_logs_for_artifact t id = on_logs (λ l. (search_transparency_logs w.db t id false l.table, l))

  -- The loop of `provide_local_artifacts`, over the paths that `list_artifacts` found; `file_stem` has
  -- no text when the name is not UTF-8, which is a panic.
  unfoldable pub provide_local_artifacts :
      (Bytes → Option (Option Bytes))
      → List Bytes
      → Exec (ArtifactService S) ArtifactError (Unit {0})
  provide_local_artifacts file_stem [] s = pure tt s
  provide_local_artifacts file_stem (path ∷ paths) s = elim (file_stem path) [
    | none ↦ provide_local_artifacts file_stem paths s
    | some none ↦ (panicked, s)
    | some (some artifact_id) ↦
        (on_network (provide w.sender artifact_id) >>= λ _. provide_local_artifacts file_stem paths)
          s
  ]

  -- The authorised node that `request_build` and `get_build_status` turn to
  abbrev pub authorized : Exec (ArtifactService S) BuildError (List PeerId)
  authorized s =
      (map_err (λ _. initialization_failed) (get_authorized_nodes w.db w.from_str s.logs.table), s)

  -- `request_build`
  unfoldable pub request_build : PackageType → Bytes → Exec (ArtifactService S) BuildError Bytes
  request_build t id = do
    nodes ← authorized
    (elim (find_or_last w.local_peer_id nodes) [
      | none ↦ lift (err initialization_failed)
      | some peer_id ↦ (do
        (λ s. (
          map_err (λ _. artifact_already_exists)
              (verify_package_can_be_added w.db t id s.logs.table),
          s,
        ))
        (if bytes_eq w.local_peer_id peer_id then lift (w.start_build t id) else (λ s.
            let (r, network) = Client.request_build w.sender peer_id t id s.network in
            (map_err (λ _. initialization_failed) r, record s { network = network }))))
    ])

  -- `get_build_status`
  unfoldable pub get_build_status : Bytes → Exec (ArtifactService S) BuildError BuildStatus
  get_build_status build_id = do
    nodes ← (λ s.
        (map_err (λ _. build_status_failed) (get_authorized_nodes w.db w.from_str s.logs.table), s))
    (elim (find_or_last w.local_peer_id nodes) [
      | none ↦ lift panicked
      | some peer_id ↦
          if bytes_eq w.local_peer_id peer_id then lift (w.build_status build_id) else (λ s.
            let (r, network) = Client.request_build_status w.sender peer_id build_id s.network in
            (map_err (λ _. build_status_failed) r, record s { network = network }))
    ])
