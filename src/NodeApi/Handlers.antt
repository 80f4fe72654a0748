-- ===== src/NodeApi/Handlers.antt =====
-- src/node_api/handlers/swarm.rs, over what it calls of the services of a node. The body of a
-- response is the value that it encodes.
use pyrsia.Base.{ℕ, Bool, false, Option, none, some, List, ◌++◌, map, Bytes, codes, if◌then◌else◌}
use pyrsia.Outcome.{Outcome, ok, err, panicked}
use pyrsia.Exec.{Exec, lift, pure, ◌>>=◌, ◌>>◌}
use pyrsia.TransparencyLog.Types.{
  PackageType, docker, maven2, TransparencyLog, TransparencyLogError,
}
use pyrsia.Network.Types.{BuildStatus, Status, PeerId}
use pyrsia.Network.Client.{ClientError}
use pyrsia.BuildService.Types.{BuildError, artifact_already_exists}
use pyrsia.BuildService.Names.{contains, slash}
use pyrsia.NodeApi.Errors.{
  ErrorMessage, RegistryError, bad_request, Texts, from_build_error, from_log_error,
  from_client_error, Rejection, custom, ok_status, created, found,
}
use pyrsia.NodeApi.Requests.{
  ContentType, default_type, Content, all_fields, TransparencyLogOutputParams,
  RequestAddAuthorizedNode, RequestDockerBuild, RequestMavenBuild, RequestBuildStatus,
  RequestDockerLog, RequestMavenLog, FieldValue, response_content_type, serialize_fields,
}

-- node_api/model/response.rs, without the status, which is not serialised
pub record BuildSuccessResponse : Type 0 where
  pub build_id : Option Bytes
  pub message : Option Bytes

pub data ResponseBody : Type 0 where
  empty_body empty_json : ResponseBody
  artifact_content : Bytes → ResponseBody
  build_success : BuildSuccessResponse → ResponseBody
  build_status : BuildStatus → ResponseBody
  peers : List PeerId → ResponseBody
  node_status : Status → ResponseBody
  logs : ContentType → List (List (Bytes × FieldValue)) → ResponseBody
  errors : ErrorMessage → ResponseBody

pub record Response : Type 0 where
  pub status : ℕ
  pub content_type : Option Bytes
  pub body : ResponseBody

-- What the handlers call of the artifact service, the transparency log and the client, with what
-- those change, and `PeerId::from_str`
pub record Services (S : Type 0) : Type 0 where
  pub request_build : PackageType → Bytes → Exec S BuildError Bytes
  pub get_build_status : Bytes → Exec S BuildError BuildStatus
  pub add_authorized_node : PeerId → Exec S TransparencyLogError (Unit {0})
  pub search_transparency_logs :
      PackageType → Bytes → Bool → Exec S TransparencyLogError (List TransparencyLog)
  pub list_peers : Exec S ClientError (List PeerId)
  pub get_status : Exec S ClientError Status
  pub peer_from_str : Bytes → Option PeerId
  pub texts : Texts

-- `.map_err(f)?` on the answer of a service
unfoldable pub or_reject : {S E A : Type 0} → (E → RegistryError) → Exec S E A → Exec S Rejection A
or_reject to_error m s =
    let (r, s') = m s in
    elim r [
      | ok a ↦ (ok a, s')
      | err e ↦ (err (custom (to_error e)), s')
      | panicked ↦ (panicked, s')
    ]

abbrev json_text : Option Bytes
json_text = some (codes "application/json")

-- `get_package_specific_id`
unfoldable pub in_library_id : Bytes → Bytes
in_library_id package_specific_id =
    if contains slash package_specific_id
    then package_specific_id
    else codes "library/" ++ package_specific_id

-- `unwrap_or_default` and `unwrap_or(false)`
abbrev pub unwrap_or : {A : Type 0} → A → Option A → A
unwrap_or default none = default
unwrap_or default (some a) = a

-- `ResponseBuilder::from`
unfoldable pub builder_from : Option TransparencyLogOutputParams → ContentType × Content
builder_from none = (default_type, record { fields = all_fields })
builder_from (some params) = (
  unwrap_or default_type params.format,
  unwrap_or (record { fields = all_fields }) params.content,
)

-- `ResponseBuilder::create_response`, with `wrap`
unfoldable pub create_response : ContentType × Content → List TransparencyLog → Response
create_response (format, content) found_logs = record {
  status = ok_status;
  content_type = some (response_content_type format);
  body = logs format (map (serialize_fields content.fields) found_logs);
}

module _ {S : Type 0} (services : Services S) where
  -- `handle_add_authorized_node`
  unfoldable pub handle_add_authorized_node : RequestAddAuthorizedNode → Exec S Rejection Response
  handle_add_authorized_node request = elim (services.peer_from_str request.peer_id) [
    | none ↦ lift (
        err (
          custom (record {
            code = bad_request (codes "PeerId has invalid format: " ++ request.peer_id);
          })))
    | some peer_id ↦ (do
      or_reject (from_log_error services.texts) (services.add_authorized_node peer_id)
      pure (record { status = created; content_type = none; body = empty_body }))
  ]

  -- The answer in `handle_err_artifact_already_exists` with the response that both callers make of it
  unfoldable pub build_response : Outcome BuildError Bytes → Outcome Rejection Response
  build_response (ok build_id) = ok (record {
    status = ok_status;
    content_type = json_text;
    body = build_success (record { build_id = some build_id; message = none });
  })
  build_response (err artifact_already_exists) = ok (record {
    status = found;
    content_type = json_text;
    body = build_success (record {
      build_id = none;
      message = some (services.texts.build_error_text artifact_already_exists);
    });
  })
  build_response (err e) = err (custom (from_build_error services.texts e))
  build_response panicked = panicked

  -- `handle_err_artifact_already_exists`
  unfoldable pub handle_build : Exec S BuildError Bytes → Exec S Rejection Response
  handle_build f s = let (r, s') = f s in (build_response r, s')

  -- `handle_build_docker`
  unfoldable pub handle_build_docker : RequestDockerBuild → Exec S Rejection Response
  handle_build_docker request =
      handle_build (services.request_build docker (in_library_id request.image))

  -- `handle_build_maven`
  unfoldable pub handle_build_maven : RequestMavenBuild → Exec S Rejection Response
  handle_build_maven request = handle_build (services.request_build maven2 request.gav)

  -- `handle_build_status`
  unfoldable pub handle_build_status : RequestBuildStatus → Exec S Rejection Response
  handle_build_status request = do
    result ←
        or_reject (from_build_error services.texts) (services.get_build_status request.build_id)
    pure (record { status = ok_status; content_type = json_text; body = build_status result })

  -- `handle_get_peers`
  unfoldable pub handle_get_peers : Exec S Rejection Response
  handle_get_peers = do
    found_peers ← or_reject (from_client_error services.texts) services.list_peers
    pure (record {
      status = ok_status;
      content_type = some (codes "application/octet-stream");
      body = peers found_peers;
    })

  -- `handle_get_status`
  unfoldable pub handle_get_status : Exec S Rejection Response
  handle_get_status = do
    status ← or_reject (from_client_error services.texts) services.get_status
    pure (record { status = ok_status; content_type = json_text; body = node_status status })

  -- `handle_inspect_log_docker`
  unfoldable pub handle_inspect_log_docker : RequestDockerLog → Exec S Rejection Response
  handle_inspect_log_docker request = do
    result ← or_reject (from_log_error services.texts) (
        services.search_transparency_logs docker (in_library_id request.image)
          (unwrap_or false request.latest))
    pure (create_response (builder_from request.output_params) result)

  -- `handle_inspect_log_maven`
  unfoldable pub handle_inspect_log_maven : RequestMavenLog → Exec S Rejection Response
  handle_inspect_log_maven request = do
    result ←
        or_reject (from_log_error services.texts)
          (services.search_transparency_logs maven2 request.gav (unwrap_or false request.latest))
    pure (create_response (builder_from request.output_params) result)
