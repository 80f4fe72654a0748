-- ===== src/BuildService/Service.antt =====
-- src/build_service/service.rs: starting a build, polling it, and storing what it made.
pub mod Stored
pub mod Successful
pub mod Polling
use pyrsia.Base.{
  ℕ, Bool, true, false, not, Option, none, some, List, [], ◌∷◌, ◌++◌, Bytes, if◌then◌else◌, codes,
}
use pyrsia.Outcome.{Outcome, ok, err, panicked, map_err}
use pyrsia.Exec.{Exec, lift, pure, modify, ◌>>=◌, ◌>>◌}
use pyrsia.TransparencyLog.Types.{PackageType, TransparencyLogError}
use pyrsia.TransparencyLog.Database.{bytes_eq}
use pyrsia.Network.Types.{PeerId, BuildStatus, running, success, failure}
use pyrsia.VerificationService.{BuildResultArtifact}
use pyrsia.BuildService.Types.{
  BuildError, MappingInfo, BuildInfo, BuildTrigger, from_source, verification, BuildResult,
  BuildEvent, build_failure, initialization_failed, transparency_log_failure, unauthorized_peer_id,
}
use pyrsia.BuildService.Types
use pyrsia.BuildService.Names.{artifact_specific_ids, slash}
use pyrsia.BuildService.Endpoints.{Http, get_mapping, download_artifact}
use pyrsia.BuildService.Endpoints

-- The files, by their paths
abbrev pub Files : Type 0
Files = Bytes → Option Bytes

-- The file system and SHA-256: what a call of `std::fs` answers and leaves behind. `store` creates a
-- file and copies bytes into it.
pub record System : Type 0 where
  pub join : Bytes → Bytes → Bytes
  pub create_dir_all : Bytes → Files → Bool × Files
  pub store : Bytes → Bytes → Files → Bool × Files
  pub remove_dir_all : Bytes → Files → Files
  pub sha256 : Bytes → Bytes
  pub hex : Bytes → Bytes

-- `BuildService` without the clients that it hands calls on to
pub record BuildService : Type 0 where
  pub repository_path : Bytes
  pub mapping_service : Bytes
  pub pipeline_service : Bytes

-- What the loop that `start_build` spawns has taken with it
pub record Poll : Type 0 where
  pub build_id : Bytes
  pub package_type : PackageType
  pub package_specific_id : Bytes
  pub build_trigger : BuildTrigger

-- What the build service changes: the events that it queues, oldest first, the loops that it spawns,
-- and the files.
pub record BuildState : Type 0 where
  pub queue : List BuildEvent
  pub polls : List Poll
  pub files : Files

abbrev pub Building : Type 0 → Type 0
Building = Exec BuildState BuildError

-- `BuildService::new`; `canonical` is what the system makes of the path.
unfoldable pub new : Option Bytes → Bytes → Bytes → Option BuildService
unfolding Endpoints.new
new none mapping_service_endpoint pipeline_service_endpoint = none
new (some canonical) mapping_service_endpoint pipeline_service_endpoint = some (record {
  repository_path = canonical;
  mapping_service = Endpoints.new mapping_service_endpoint;
  pipeline_service = Endpoints.new pipeline_service_endpoint;
})

-- `build_event_client`: an event is put into the queue.
abbrev pub enqueue : BuildEvent → BuildState → BuildState
enqueue event s = record s { queue = s.queue ++ event ∷ [] }

-- `authorized_nodes.iter().any(..)`
unfoldable pub is_among : PeerId → List PeerId → Bool
is_among requestor [] = false
is_among requestor (peer_id ∷ peer_ids) =
    if bytes_eq peer_id requestor then true else is_among requestor peer_ids

-- The match on the trigger in `start_build`. `verify_build` is whether the client of the network
-- succeeds, `authorized_nodes` the answer of the transparency log.
unfoldable pub check_trigger :
    Bool → Outcome TransparencyLogError (List PeerId) → BuildTrigger → Outcome BuildError (Unit {0})
unfolding is_among
check_trigger verify_build authorized_nodes from_source =
    if verify_build then ok tt else err initialization_failed
check_trigger verify_build authorized_nodes (verification requestor) =
    elim (map_err transparency_log_failure authorized_nodes) [
      | ok nodes ↦ if is_among requestor nodes then ok tt else err (unauthorized_peer_id requestor)
      | err e ↦ err e
      | panicked ↦ panicked
    ]

-- `calculate_hash`
unfoldable pub calculate_hash : System → Bytes → Bytes
calculate_hash sys bytes = sys.hex (sys.sha256 bytes)

-- `hash_and_store_data`
unfoldable pub hash_and_store_data :
    System → Bytes → Bytes → Exec BuildState (Unit {0}) (Bytes × Bytes)
hash_and_store_data sys build_path bytes s =
    let hash = calculate_hash sys bytes in
    let data_location = sys.join build_path hash in
    let (stored, files) = sys.store data_location bytes s.files in
    let s' = record s { files = files } in
    if stored then (ok (data_location, hash), s') else (err tt, s')

-- The inner loop of `process_artifact_urls`
unfoldable pub built_artifacts : Bytes → Bytes → List Bytes → List BuildResultArtifact
built_artifacts location hash [] = []
built_artifacts location hash (id ∷ ids) =
    record { artifact_specific_id = id; artifact_location = location; artifact_hash = hash }
    ∷ built_artifacts location hash ids

module _ (svc : BuildService) where
  -- `start_build`
  unfoldable pub start_build :
      Http
      → Bool
      → Outcome TransparencyLogError (List PeerId)
      → PackageType
      → Bytes
      → BuildTrigger
      → Building Bytes
  unfolding check_trigger get_mapping Endpoints.start_build
  start_build http verify_build authorized_nodes t id trigger = do
    lift (check_trigger verify_build authorized_nodes trigger)
    mapping_info ← lift (get_mapping http svc.mapping_service t id)
    build_id ← lift (Endpoints.start_build http svc.pipeline_service mapping_info)
    modify (λ s. record s {
      polls =
          s.polls
          ++ record {
            build_id = build_id;
            package_type = t;
            package_specific_id = id;
            build_trigger = trigger;
          }
            ∷ [];
    })
    pure build_id

  -- The loop that `start_build` spawns, over what the pipeline answers at each tick: the event that
  -- ends it, if it ends within these
  unfoldable pub poll : Poll → List Http → Option BuildEvent
  unfolding Endpoints.get_build_status
  poll p [] = none
  poll p (http ∷ https) = elim (Endpoints.get_build_status http svc.pipeline_service p.build_id) [
    | ok info ↦ elim info.status [
      | running ↦ poll p https
      | success artifact_urls ↦ some (
          Types.build_succeeded p.build_id p.package_type p.package_specific_id p.build_trigger
            artifact_urls)
      | failure _ ↦ some (Types.build_failed p.build_id (build_failure info.id))
    ]
    | err build_error ↦ some (Types.build_failed p.build_id build_error)
    | panicked ↦ none
  ]

  -- `get_build_status`
  unfoldable pub get_build_status : Http → Bytes → Outcome BuildError BuildInfo
  unfolding Endpoints.get_build_status
  get_build_status http build_id = Endpoints.get_build_status http svc.pipeline_service build_id

  module _ (sys : System) where
    -- `get_build_path`
    unfoldable pub get_build_path : Bytes → Bytes
    get_build_path build_id = sys.join (sys.join svc.repository_path (codes "builds")) build_id

    -- The loop of `process_artifact_urls`, with the artifacts so far
    unfoldable pub process_each :
        Http
        → Bytes
        → PackageType
        → Bytes
        → Bytes
        → List BuildResultArtifact
        → List Bytes
        → Building (List BuildResultArtifact)
    process_each http build_id t id build_path artifacts [] = pure artifacts
    process_each http build_id t id build_path artifacts (url ∷ urls) = do
      artifact ← lift (download_artifact http svc.pipeline_service url)
      (location, hash) ← (λ s.
          let (r, s') = hash_and_store_data sys build_path artifact s in
          (map_err (λ _. build_failure build_id) r, s'))
      process_each http build_id t id build_path
          (artifacts ++ built_artifacts location hash (artifact_specific_ids t id url hash)) urls

    -- `process_artifact_urls`
    unfoldable pub process_artifact_urls :
        Http → Bytes → PackageType → Bytes → List Bytes → Bytes → Building BuildResult
    process_artifact_urls http build_id t id artifact_urls build_path = do
      artifacts ← process_each http build_id t id build_path [] artifact_urls
      pure (record { package_type = t; package_specific_id = id; artifacts = artifacts })

    -- `clean_up_build`
    unfoldable pub clean_up_build : Bytes → BuildState → BuildState
    unfolding get_build_path
    clean_up_build build_id s = record s {
      files = sys.remove_dir_all (get_build_path build_id) s.files;
    }

    -- `handle_successful_build`
    unfoldable pub handle_successful_build :
        Http → Bytes → PackageType → Bytes → BuildTrigger → List Bytes → BuildState → BuildState
    handle_successful_build http build_id t id trigger artifact_urls s =
        let build_path = get_build_path build_id in
        let (created, files) = sys.create_dir_all build_path s.files in
        let s1 = record s { files = files } in
        if not created
        then enqueue (Types.build_failed build_id (build_failure build_id)) s1
        else let (r, s2) = process_artifact_urls http build_id t id artifact_urls build_path s1 in
          elim r [
            | ok build_result ↦ enqueue (Types.build_result build_id trigger build_result) s2
            | err build_error ↦
                clean_up_build build_id (enqueue (Types.build_failed build_id build_error) s2)
            | panicked ↦ s2
          ]
