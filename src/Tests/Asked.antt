-- ===== src/Tests/Asked.antt =====
-- The theorems on the HTTP interface, at a node that counts the builds that it is asked for.
use pyrsia.Base.{
  map, ℕ, suc, ◌≡◌, refl, Option, none, some, [], ◌∷◌, map, Bytes, codes, drop, ◌==◌, if◌then◌else◌,
  arith,
}
use pyrsia.Outcome.{Outcome, ok, err}
use pyrsia.Exec.{lift}
use pyrsia.TransparencyLog.Types.{TransparencyLog, docker, add_node}
use pyrsia.Network.Types.{running}
use pyrsia.BuildService.Names.{split, slash}
use pyrsia.NodeApi.Requests.{
  RequestDockerBuild, RequestMavenBuild, Content, id_field, timestamp_field,
}
use pyrsia.NodeApi.Handlers.{Services}
use pyrsia.NodeApi.Routes.{Serde, serve_http}
use pyrsia.Tests.Filters.{warp, warp-IsWarp}
use pyrsia.Cli.Config.{CliConfig, ConfigError, default_config}
use pyrsia.Cli.Node.{
  Http, http_status_error, get_url, node_url, request_docker_build, request_maven_build,
}
use pyrsia.Cli.Node.Reached.{
  answered, IsConnected, told, request_maven_build_misrouted, request_docker_build_reached,
}

abbrev services : Services ℕ
services = record {
  request_build = λ t id s. (ok (codes "b1"), suc s);
  get_build_status = λ id. lift (ok running);
  add_authorized_node = λ peer. lift (ok tt);
  search_transparency_logs = λ t id latest. lift (ok []);
  list_peers = lift (ok []);
  get_status = lift (ok (record { peers_count = 0; peer_id = []; peer_addrs = [] }));
  peer_from_str = λ s. some s;
  texts = record {
    build_error_text = λ e. codes "build";
    log_error_text = λ e. codes "log";
    client_error_text = λ e. codes "client";
  };
}

-- A tag and the text
abbrev tagged : ℕ → Bytes → Option Bytes
tagged tag [] = none
tagged tag (b ∷ s) = if b == tag then some s else none

abbrev docker_build_of : Option Bytes → Option RequestDockerBuild
docker_build_of none = none
docker_build_of (some s) = some (record { image = s })

abbrev serde : Serde
serde = record {
  encode_add_node = λ r. 3 ∷ r.peer_id;
  decode_add_node = λ s. none;
  encode_docker_build = λ r. 1 ∷ r.image;
  decode_docker_build = λ s. docker_build_of (tagged 1 s);
  encode_maven_build = λ r. 2 ∷ r.gav;
  decode_maven_build = λ s. none;
  encode_build_status = λ r. 4 ∷ r.build_id;
  decode_build_status = λ s. none;
  encode_docker_log = λ r. 5 ∷ r.image;
  decode_docker_log = λ s. none;
  encode_maven_log = λ r. 6 ∷ r.gav;
  decode_maven_log = λ s. none;
}

abbrev config : Outcome ConfigError CliConfig
config = ok default_config

-- The address is dropped, and the node asked for what stands behind it.
abbrev http : Http ℕ
http method url body =
    answered (serve_http warp services serde)
      (record { method = method; segments = split slash (drop 1 (drop 21 url)); body = body })

http-IsConnected : IsConnected http config warp services serde
unfolding get_url
http-IsConnected = record { posts = λ path body s. refl }

abbrev alpine : RequestDockerBuild
alpine = record { image = codes "alpine:3.16" }

request_docker_build_reached_example :
    request_docker_build http config serde alpine 7
    ≡ (told services (node_url config (codes "/build/docker")) (ok (codes "b1")), 8)
request_docker_build_reached_example =
    request_docker_build_reached http config warp warp-IsWarp services serde http-IsConnected alpine
      7 8 (ok (codes "b1")) refl (ground arith) refl

abbrev commons : RequestMavenBuild
commons = record { gav = codes "commons-codec:commons-codec:1.15" }

request_maven_build_misrouted_example :
    request_maven_build http config serde commons 7
    ≡ (err (http_status_error 500 (node_url config (codes "/build/docker")) (some [])), 7)
request_maven_build_misrouted_example =
    request_maven_build_misrouted http config warp warp-IsWarp services serde http-IsConnected
      commons 7 refl

abbrev a_log : TransparencyLog
a_log = record {
  id = codes "1";
  package_type = some docker;
  package_specific_id = codes "library/alpine:3.16";
  num_artifacts = 1;
  package_specific_artifact_id = [];
  artifact_hash = [];
  source_hash = [];
  artifact_id = [];
  source_id = [];
  timestamp = 5;
  operation = add_node;
  node_id = [];
  node_public_key = [];
}

abbrev two_fields : Content
two_fields = record { fields = timestamp_field ∷ id_field ∷ [] }

-- A service that has one log
abbrev searched : Services ℕ
searched = record services { search_transparency_logs = λ t id latest s. (ok (a_log ∷ []), s) }
