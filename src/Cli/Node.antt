-- ===== src/Cli/Node.antt =====
-- src/cli_commands/node.rs: what the command line asks of a node over HTTP.
pub mod Reached
-- pub mod Misrouted
use pyrsia.Base.{
  ℕ, Bool, ◌&&◌, Option, none, some, List, [], ◌∷◌, ◌++◌, Bytes, codes, leb, ltb, if◌then◌else◌,
}
use pyrsia.Outcome
use pyrsia.Outcome.{Outcome, ok, err, panicked}
use pyrsia.Exec.{Exec, lift, pure, ◌>>=◌}
use pyrsia.BuildService.Names.{colon}
use pyrsia.Network.Types.{BuildStatus, Status}
use pyrsia.NodeApi.Requests.{
  json, csv, RequestAddAuthorizedNode, RequestDockerBuild, RequestMavenBuild, RequestBuildStatus,
  RequestDockerLog, RequestMavenLog,
}
use pyrsia.NodeApi.Handlers.{
  empty_body, empty_json, artifact_content, logs, peers, BuildSuccessResponse, ResponseBody,
  build_success, build_status, node_status, errors, Response,
}
use pyrsia.NodeApi.Routes.{Method, get, post, Serde}
use pyrsia.Cli.Config.{CliConfig, ConfigError}

-- cli_commands/model.rs
pub record BuildResultResponse : Type 0 where
  pub build_id : Option Bytes
  pub message : Option Bytes

-- `anyhow::Error`: the request failed, the body is not what was asked for, or the status is one of
-- an error, with the message in the body, or none for null.
pub data NodeError : Type 0 where
  request_failed body_not_read : NodeError
  http_status_error : ℕ → Bytes → Option Bytes → NodeError

-- reqwest, on the nodes that it reaches
abbrev pub Http : Type 0 → Type 0
Http S = Method → Bytes → Bytes → Exec S NodeError Response

-- The text that a body is
abbrev pub BodyText : Type 0
BodyText = ResponseBody → Bytes

-- `get_url`, after what `get_config` answered
unfoldable pub get_url : Outcome ConfigError CliConfig → Bytes
get_url (ok config) = config.host ++ (colon ∷ config.port)
get_url (err e) = colon ∷ []
get_url panicked = colon ∷ []

-- The `format!` of the addresses
abbrev pub node_url : Outcome ConfigError CliConfig → Bytes → Bytes
node_url config path = codes "http://" ++ (get_url config ++ path)

-- `errors[0].message` of a body, null where a body in JSON has none
unfoldable pub error_message : ResponseBody → Outcome NodeError (Option Bytes)
error_message (errors message) = ok (some message.message)
error_message empty_body = err body_not_read
error_message (artifact_content bytes) = err body_not_read
error_message (logs csv rows) = err body_not_read
error_message (logs json rows) = ok none
error_message empty_json = ok none
error_message (build_success response) = ok none
error_message (build_status s) = ok none
error_message (peers ids) = ok none
error_message (node_status s) = ok none

-- `error_for_status_with_body`
unfoldable pub error_for_status_with_body : Bytes → Response → Outcome NodeError Response
error_for_status_with_body url response =
    if leb 400 response.status && ltb response.status 600
    then Outcome.◌>>=◌ (error_message response.body)
        (λ message. err (http_status_error response.status url message))
    else ok response

-- `json` for the types that are asked for
unfoldable pub json_build_result : ResponseBody → Outcome NodeError BuildResultResponse
json_build_result (build_success b) = ok (record { build_id = b.build_id; message = b.message })
json_build_result body = err body_not_read

unfoldable pub json_build_status : ResponseBody → Outcome NodeError BuildStatus
json_build_status (build_status s) = ok s
json_build_status body = err body_not_read

unfoldable pub json_status : ResponseBody → Outcome NodeError Status
json_status (node_status s) = ok s
json_status body = err body_not_read

module _ {S : Type 0} (http : Http S) where
  -- `post_and_parse_result_as_json`, `post_and_parse_json_result_as_object` and
  -- `post_and_parse_result_as_text`, with what parses the body
  unfoldable pub post_and_parse :
      {R : Type 0} → (ResponseBody → Outcome NodeError R) → Bytes → Bytes → Exec S NodeError R
  post_and_parse parse url body = do
    response ← http post url body
    checked ← lift (error_for_status_with_body url response)
    lift (parse checked.body)

  module _ (config : Outcome ConfigError CliConfig) (text : BodyText) where
    -- `ping`
    unfoldable pub ping : Exec S NodeError Bytes
    ping = do response ← http get (node_url config (codes "/v2")) []; pure (text response.body)

    -- `peers_connected`
    unfoldable pub peers_connected : Exec S NodeError Bytes
    peers_connected = do
      response ← http get (node_url config (codes "/peers")) []
      pure (text response.body)

  module _ (config : Outcome ConfigError CliConfig) where
    -- `status`
    unfoldable pub status : Exec S NodeError Status
    status = do
      response ← http get (node_url config (codes "/status")) []
      lift (json_status response.body)

  module _ (config : Outcome ConfigError CliConfig) (serde : Serde) where
    -- `add_authorized_node`
    unfoldable pub add_authorized_node : RequestAddAuthorizedNode → Exec S NodeError (Unit {0})
    add_authorized_node request =
        post_and_parse (λ body. ok tt) (node_url config (codes "/authorized_node"))
          (serde.encode_add_node request)

    -- `request_docker_build`
    unfoldable pub request_docker_build : RequestDockerBuild → Exec S NodeError BuildResultResponse
    request_docker_build request =
        post_and_parse json_build_result (node_url config (codes "/build/docker"))
          (serde.encode_docker_build request)

    -- `request_build_status`
    unfoldable pub request_build_status : RequestBuildStatus → Exec S NodeError BuildStatus
    request_build_status request =
        post_and_parse json_build_status (node_url config (codes "/build/status"))
          (serde.encode_build_status request)

    -- `request_maven_build`
    unfoldable pub request_maven_build : RequestMavenBuild → Exec S NodeError BuildResultResponse
    request_maven_build request =
        post_and_parse json_build_result (node_url config (codes "/build/docker"))
          (serde.encode_maven_build request)

    module _ (text : BodyText) where
      -- `inspect_docker_transparency_log`
      unfoldable pub inspect_docker_transparency_log : RequestDockerLog → Exec S NodeError Bytes
      inspect_docker_transparency_log request =
          post_and_parse (λ body. ok (text body)) (node_url config (codes "/inspect/docker"))
            (serde.encode_docker_log request)

      -- `inspect_maven_transparency_log`
      unfoldable pub inspect_maven_transparency_log : RequestMavenLog → Exec S NodeError Bytes
      inspect_maven_transparency_log request =
          post_and_parse (λ body. ok (text body)) (node_url config (codes "/inspect/maven"))
            (serde.encode_maven_log request)
