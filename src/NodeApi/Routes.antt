-- ===== src/NodeApi/Routes.antt =====
-- src/node_api/routes.rs, with the recovery that pyrsia_node/src/main.rs puts around it.
pub mod WarpLaws
pub mod Served
use pyrsia.Base.{
  ℕ, ◌*◌, Bool, true, false, ◌&&◌, Option, none, some, List, [], ◌∷◌, ◌++◌, Bytes, codes, length,
  ltb, if◌then◌else◌,
}
use pyrsia.Outcome.{Outcome, ok, err, panicked}
use pyrsia.Exec.{Exec, lift}
use pyrsia.TransparencyLog.Database.{bytes_eq}
use pyrsia.NodeApi.Errors.{
  Rejection, not_found, method_not_allowed, payload_too_large, body_deserialize_error,
  custom_recover, Finds, ErrorMessage,
}
use pyrsia.NodeApi.Requests.{
  RequestAddAuthorizedNode, RequestDockerBuild, RequestMavenBuild, RequestBuildStatus,
  RequestDockerLog, RequestMavenLog,
}
use pyrsia.NodeApi.Handlers.{
  Services, Response, errors, handle_add_authorized_node, handle_build_docker, handle_build_maven,
  handle_build_status, handle_get_peers, handle_get_status, handle_inspect_log_docker,
  handle_inspect_log_maven,
}

pub data Method : Type 0 where
  get post : Method

pub record HttpRequest : Type 0 where
  pub method : Method
  pub segments : List Bytes
  pub body : Bytes

-- serde_json on the requests, both ways
pub record Serde : Type 0 where
  pub encode_add_node : RequestAddAuthorizedNode → Bytes
  pub decode_add_node : Bytes → Option RequestAddAuthorizedNode
  pub encode_docker_build : RequestDockerBuild → Bytes
  pub decode_docker_build : Bytes → Option RequestDockerBuild
  pub encode_maven_build : RequestMavenBuild → Bytes
  pub decode_maven_build : Bytes → Option RequestMavenBuild
  pub encode_build_status : RequestBuildStatus → Bytes
  pub decode_build_status : Bytes → Option RequestBuildStatus
  pub encode_docker_log : RequestDockerLog → Bytes
  pub decode_docker_log : Bytes → Option RequestDockerLog
  pub encode_maven_log : RequestMavenLog → Bytes
  pub decode_maven_log : Bytes → Option RequestMavenLog

abbrev pub content_length_limit : ℕ
content_length_limit = 1024 * 8

-- A filter with its handler: a response, or what it was rejected with
abbrev pub Filter : Type 0 → Type 0
Filter S = HttpRequest → Exec S (List Rejection) Response

-- What the routes call of warp: a path that is got, a path that at most so many bytes of JSON are
-- posted to, `or`, `recover` and `find`
pub record Warp (S : Type 0) : Type 1 where
  pub get_route : List Bytes → Exec S Rejection Response → Filter S
  pub post_route :
      {R : Type 0}
      → List Bytes
      → ℕ
      → (Bytes → Option R)
      → (R → Exec S Rejection Response)
      → Filter S
  pub or_else : Filter S → Filter S → Filter S
  pub recover :
      (List Rejection → Response) → Filter S → HttpRequest → S → Outcome Rejection Response × S
  pub finds : Finds

-- The answer of `custom_recover`
abbrev pub recovered : ℕ × ErrorMessage → Response
recovered (status, message) = record {
  status = status;
  content_type = some (codes "application/json");
  body = errors message;
}

module _ {S : Type 0} (warp : Warp S) (services : Services S) (serde : Serde) where
  -- A route that JSON is posted to
  abbrev posted :
      {R : Type 0} → List Bytes → (Bytes → Option R) → (R → Exec S Rejection Response) → Filter S
  posted segments decode handler = warp.post_route segments content_length_limit decode handler

  infixl 5 ◌or◌
  abbrev ◌or◌ : Filter S → Filter S → Filter S
  first or second = warp.or_else first second

  -- `make_node_routes`
  unfoldable pub make_node_routes : Filter S
  make_node_routes =
      posted (codes "authorized_node" ∷ []) serde.decode_add_node
        (handle_add_authorized_node services)
      or posted (codes "build" ∷ codes "docker" ∷ []) serde.decode_docker_build
          (handle_build_docker services)
      or posted (codes "build" ∷ codes "maven" ∷ []) serde.decode_maven_build
          (handle_build_maven services)
      or warp.get_route (codes "peers" ∷ []) (handle_get_peers services)
      or warp.get_route (codes "status" ∷ []) (handle_get_status services)
      or posted (codes "inspect" ∷ codes "docker" ∷ []) serde.decode_docker_log
          (handle_inspect_log_docker services)
      or posted (codes "inspect" ∷ codes "maven" ∷ []) serde.decode_maven_log
          (handle_inspect_log_maven services)
      or posted (codes "build" ∷ codes "status" ∷ []) serde.decode_build_status
          (handle_build_status services)

  -- The node's routes behind the recovery
  unfoldable pub serve_http : HttpRequest → S → Outcome Rejection Response × S
  serve_http =
      warp.recover (λ rejections. recovered (custom_recover warp.finds rejections)) make_node_routes
