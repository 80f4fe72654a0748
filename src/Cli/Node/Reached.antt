-- ===== src/Cli/Node/Reached.antt =====
-- The builds that src/cli_commands/node.rs asks for, at the routes of src/node_api/routes.rs.
use pyrsia.Base.{
  ◌*◌, ◌≤◌, ◌≡◌, refl, ap, ◌∙◌, none, some, [], ◌∷◌, Bytes, codes, drop, length, arith,
}
use pyrsia.Outcome.{Outcome, ok, err, panicked}
use pyrsia.Exec.{Exec}
use pyrsia.TransparencyLog.Types.{docker}
use pyrsia.BuildService.Types.{
  BuildError, artifact_already_exists, build_failure, initialization_failed,
  transparency_log_failure, unauthorized_peer_id, invalid_mapping_response,
  invalid_pipeline_response, mapping_not_found, mapping_service_endpoint_failure,
  mapping_service_endpoint_request_failure, pipeline_service_endpoint_failure,
  pipeline_service_endpoint_request_failure, build_status_failed,
}
use pyrsia.BuildService.Names.{split, slash}
use pyrsia.NodeApi.Errors.{Rejection, custom, unknown, from_build_error, registry_answer}
use pyrsia.NodeApi.Requests.{RequestDockerBuild, RequestMavenBuild}
use pyrsia.NodeApi.Handlers.{
  Services, Response, in_library_id, build_response, handle_build, handle_build_docker,
}
use pyrsia.NodeApi.Routes.{recovered, Warp, HttpRequest, post, Serde, serve_http}
use pyrsia.NodeApi.Routes.WarpLaws.{IsWarp}
use pyrsia.NodeApi.Routes.Served.{
  docker_request, nothing_found, serve_http-unread, serve_http-built, serve_http-refused,
  serve_http-broken,
}
use pyrsia.Cli.Config.{CliConfig, ConfigError}
use pyrsia.Cli.Node.{
  Http, NodeError, request_failed, http_status_error, node_url, BuildResultResponse, error_message,
  error_for_status_with_body, json_build_result, post_and_parse, request_docker_build,
  request_maven_build,
}

-- What comes back from a node that handles requests by `serve`: a handler that panics answers nothing.
unfoldable pub answered :
    {S : Type 0}
    → (HttpRequest → S → Outcome Rejection Response × S)
    → HttpRequest
    → Exec S NodeError Response
answered serve request s =
    let (r, s') = serve request s in
    elim r [
      | ok response ↦ (ok response, s')
      | err e ↦ (err request_failed, s')
      | panicked ↦ (err request_failed, s')
    ]

-- What is posted to the configured address comes to the routes of a node.
pub record IsConnected {S : Type 0} (http : Http S) (config : Outcome ConfigError CliConfig)
    (warp : Warp S) (services : Services S) (serde : Serde) : Type 0 where
  pub posts :
      (path body : Bytes) (s : S)
      → http post (node_url config path) body s
        ≡ answered
            (serve_http warp services serde)
            (record { method = post; segments = split slash (drop 1 path); body = body })
            s

abbrev build_path : Bytes
build_path = codes "/build/docker"

build_segments : split slash (drop 1 build_path) ≡ codes "build" ∷ codes "docker" ∷ []
unfolding split
build_segments = refl

-- What the command line makes of the answer of `request_build`
unfoldable pub told :
    {S : Type 0}
    → Services S
    → Bytes
    → Outcome BuildError Bytes
    → Outcome NodeError BuildResultResponse
told services url (ok build_id) = ok (record { build_id = some build_id; message = none })
told services url (err artifact_already_exists) = ok (record {
  build_id = none;
  message = some (services.texts.build_error_text artifact_already_exists);
})
told services url (err e) =
    err (http_status_error 500 url (some (services.texts.build_error_text e)))
told services url panicked = err request_failed

module _ {S : Type 0} (http : Http S) (config : Outcome ConfigError CliConfig) (warp : Warp S)
    (laws : IsWarp warp) (services : Services S) (serde : Serde)
    (connected : IsConnected http config warp services serde) where
  posts-docker :
      (body : Bytes) (s : S)
      → http post (node_url config build_path) body s
        ≡ answered (serve_http warp services serde) (docker_request body) s
  posts-docker body s =
      connected.posts build_path body s
      ∙ ap
          (λ t.
            answered (serve_http warp services serde)
              (record { method = post; segments = t; body = body }) s)
          build_segments

  -- Whatever Maven build is asked for, the node answers 500 without asking any service, and its
  -- state stays as it was, when what encodes the request is not read as one for a Docker build and
  -- what is posted comes to a node over a warp as documented.
  pub request_maven_build_misrouted :
      (request : RequestMavenBuild) (s : S)
      → serde.decode_docker_build (serde.encode_maven_build request) ≡ none
      → request_maven_build http config serde request s
        ≡ (err (http_status_error 500 (node_url config (codes "/build/docker")) (some [])), s)
  unfolding request_maven_build post_and_parse answered error_for_status_with_body error_message
  request_maven_build_misrouted request s unread =
      let body = serde.encode_maven_build request in
      let served = serve_http-unread warp laws services serde body s unread in
      let back : http post (node_url config build_path) body s ≡ (ok nothing_found, s) =
        posts-docker body s ∙ ground (arith, served) in
      ground (arith, back)

  module _ (request : RequestDockerBuild)
      (fits : length (serde.encode_docker_build request) ≤ 1024 * 8)
      (read : serde.decode_docker_build (serde.encode_docker_build request) ≡ some request) where
    told-built :
        (s s1 : S) (x : Response) (r : BuildResultResponse)
        → handle_build_docker services request s ≡ (ok x, s1)
        → error_for_status_with_body (node_url config build_path) x ≡ ok x
        → json_build_result x.body ≡ ok r
        → request_docker_build http config serde request s ≡ (ok r, s1)
    unfolding request_docker_build post_and_parse answered
    told-built s s1 x r h fine parsed =
        let body = serde.encode_docker_build request in
        let served = serve_http-built warp laws services serde body request read fits s s1 x h in
        let back : http post (node_url config build_path) body s ≡ (ok x, s1) =
          posts-docker body s ∙ ground (arith, served) in
        ground (arith, back, fine, parsed)

    told-refused :
        (s s1 : S) (m : Bytes)
        → handle_build_docker services request s ≡ (err (custom (record { code = unknown m })), s1)
        → request_docker_build http config serde request s
          ≡ (err (http_status_error 500 (node_url config build_path) (some m)), s1)
    unfolding request_docker_build post_and_parse answered error_for_status_with_body error_message
        registry_answer
    told-refused s s1 m h =
        let body = serde.encode_docker_build request in
        let served =
          serve_http-refused warp laws services serde body request read fits s s1
            (record { code = unknown m }) h in
        let back : http post (node_url config build_path) body s
            ≡ (ok (recovered (registry_answer (unknown m))), s1) =
          posts-docker body s ∙ ground (arith, served) in
        ground (arith, back)

    told-broken :
        (s s1 : S)
        → handle_build_docker services request s ≡ (panicked, s1)
        → request_docker_build http config serde request s ≡ (err request_failed, s1)
    unfolding request_docker_build post_and_parse answered
    told-broken s s1 h =
        let body = serde.encode_docker_build request in
        let served = serve_http-broken warp laws services serde body request read fits s s1 h in
        let back : http post (node_url config build_path) body s ≡ (err request_failed, s1) =
          posts-docker body s ∙ ground (arith, served) in
        ground (arith, back)

    handled-by :
        (s s1 : S) (answer : Outcome BuildError Bytes)
        → services.request_build docker (in_library_id request.image) s ≡ (answer, s1)
        → handle_build_docker services request s ≡ (build_response services answer, s1)
    unfolding handle_build_docker handle_build
    handled-by s s1 answer h = ap (λ a. (build_response services a.0, a.1)) h

    handled-told :
        (s s1 : S) (answer : Outcome BuildError Bytes)
        → handle_build_docker services request s ≡ (build_response services answer, s1)
        → request_docker_build http config serde request s
          ≡ (told services (node_url config build_path) answer, s1)
    unfolding told build_response from_build_error error_for_status_with_body json_build_result
    handled-told s s1 (ok build_id) h = told-built s s1 _ _ h refl refl
    handled-told s s1 panicked h = told-broken s s1 h
    handled-told s s1 (err artifact_already_exists) h = told-built s s1 _ _ h refl refl
    handled-told s s1 (err (build_failure m)) h = told-refused s s1 _ h
    handled-told s s1 (err initialization_failed) h = told-refused s s1 _ h
    handled-told s s1 (err (transparency_log_failure e)) h = told-refused s s1 _ h
    handled-told s s1 (err (unauthorized_peer_id p)) h = told-refused s s1 _ h
    handled-told s s1 (err invalid_mapping_response) h = told-refused s s1 _ h
    handled-told s s1 (err invalid_pipeline_response) h = told-refused s s1 _ h
    handled-told s s1 (err (mapping_not_found t id)) h = told-refused s s1 _ h
    handled-told s s1 (err (mapping_service_endpoint_failure n)) h = told-refused s s1 _ h
    handled-told s s1 (err mapping_service_endpoint_request_failure) h = told-refused s s1 _ h
    handled-told s s1 (err (pipeline_service_endpoint_failure n)) h = told-refused s s1 _ h
    handled-told s s1 (err pipeline_service_endpoint_request_failure) h = told-refused s s1 _ h
    handled-told s s1 (err build_status_failed) h = told-refused s s1 _ h

  -- A Docker build that is asked for, in at most 8 KiB that are read back as it was, when what
  -- is posted comes to a node over a warp as documented, is asked of the node's service once,
  -- under its name in the library. The command line is told the build, that there is nothing to
  -- build, or the text of the error with the status 500; when the service panics it gets no
  -- answer.
  pub request_docker_build_reached :
      (request : RequestDockerBuild) (s s1 : S) (answer : Outcome BuildError Bytes)
      → serde.decode_docker_build (serde.encode_docker_build request) ≡ some request
      → length (serde.encode_docker_build request) ≤ 1024 * 8
      → services.request_build docker (in_library_id request.image) s ≡ (answer, s1)
      → request_docker_build http config serde request s
        ≡ (told services (node_url config (codes "/build/docker")) answer, s1)
  request_docker_build_reached request s s1 answer read fits h =
      handled-told request fits read s s1 answer (handled-by request fits read s s1 answer h)
