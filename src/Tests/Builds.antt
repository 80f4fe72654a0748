-- ===== src/Tests/Builds.antt =====
-- The theorems on the build service, at the build of a Maven package with one artifact.
use pyrsia.Base.{
  ℕ, ◌≡◌, refl, sym, true, some, none, List, [], ◌∷◌, ◌++◌, Bytes, arith, length, take,
  if◌then◌else◌, codes, Bool-cases, inl, inr,
}
use pyrsia.Outcome.{ok}
use pyrsia.TransparencyLog.Types.{maven2}
use pyrsia.TransparencyLog.Database.{bytes_eq, bytes_eq_iff}
use pyrsia.Network.Types.{running, success}
use pyrsia.VerificationService.{VerificationInfo}
use pyrsia.BuildService.Types.{from_source, verification}
use pyrsia.BuildService.Endpoints.{Http, Response}
use pyrsia.BuildService.Endpoints
use pyrsia.BuildService.Service.{
  System, BuildService, BuildState, Poll, check_trigger, handle_successful_build,
}
use pyrsia.BuildService.Service.Stored.{SystemLaws}
use pyrsia.BuildService.Service.Successful.{IsReported, handle_successful_build-IsReported}
use pyrsia.BuildService.EventLoop.{ArtifactBuilds, BuildEventLoop, Surroundings}

-- A file system that never fails, and the length for the digest
abbrev system : System
system = record {
  join = λ dir name. dir ++ 47 ∷ name;
  create_dir_all = λ path files. (true, files);
  store =
      λ path bytes files. (true, λ other. if bytes_eq path other then some bytes else files other);
  remove_dir_all =
      λ path files other. if bytes_eq (take (length path) other) path then none else files other;
  sha256 = λ bytes. length bytes ∷ [];
  hex = λ digest. digest;
}

append_cancel : (dir a b : Bytes) → dir ++ 47 ∷ a ≡ dir ++ 47 ∷ b → a ≡ b
append_cancel [] a b e = cc
append_cancel (x ∷ dir) a b e = append_cancel dir a b cc

laws : SystemLaws system
laws = record {
  join_names = λ dir a b. append_cancel dir a b;
  stores = λ path bytes files _. ground (arith, bytes_eq_iff path path);
  others = λ path bytes files other apart. elim (Bool-cases (bytes_eq path other)) [
    | inl same ↦ absurd (apart (sym ((bytes_eq_iff path other).0 same)))
    | inr different ↦ ground (arith, different)
  ];
}

abbrev svc : BuildService
svc = record {
  repository_path = codes "/r";
  mapping_service = codes "m";
  pipeline_service = codes "p";
}

-- A pipeline that answers every request with this byte
abbrev pipeline : ℕ → Http
pipeline n = record {
  get = λ _. some (record { status = 200; body = some (n ∷ []) });
  put = λ _ _. none;
  parse_mapping = λ _. none;
  parse_text = λ _. none;
  parse_build_info = λ bytes. some (record {
    id = codes "b";
    status = if bytes_eq bytes (0 ∷ []) then running else success (codes "/x.jar" ∷ []);
  });
}

abbrev id : Bytes
id = codes "g:a:1"

abbrev urls : List Bytes
urls = codes "/x.jar" ∷ []

abbrev start : BuildState
start = record { queue = []; polls = []; files = λ _. none }

handle_successful_build-IsReported_example :
    IsReported system laws svc
      (pipeline 1)
      (codes "b")
      maven2
      id
      from_source
      []
      (handle_successful_build svc system (pipeline 1) (codes "b") maven2 id from_source urls start)
handle_successful_build-IsReported_example =
    handle_successful_build-IsReported system laws svc (pipeline 1) (codes "b") maven2 id
      from_source urls start

downloads_x : Endpoints.download_artifact (pipeline 1) (codes "p") (codes "/x.jar") ≡ ok (1 ∷ [])
unfolding Endpoints.download_artifact
downloads_x = refl

abbrev builds : ArtifactBuilds (Unit {0})
builds = record { handle_build_result = λ _ _ s. (true, s) }

abbrev info : VerificationInfo
info = record { sender = 4; artifact_specific_id = codes "g/a/1/x.jar"; artifact_hash = 1 ∷ [] }

abbrev node : BuildEventLoop (Unit {0})
node = record {
  artifact_service = tt;
  build_service = start;
  verification_service = record {
    pending_info = λ _. none;
    verifying_info = λ _. some (info ∷ []);
    sent = [];
  };
  sent = [];
}

abbrev surroundings : Surroundings
surroundings = record { http = pipeline 1; verify_build = true; authorized_nodes = ok [] }

abbrev spawned : Poll
spawned = record {
  build_id = codes "b";
  package_type = maven2;
  package_specific_id = id;
  build_trigger = verification (codes "peer");
}

is_accepted : check_trigger true (ok []) from_source ≡ ok tt
unfolding check_trigger
is_accepted = refl
