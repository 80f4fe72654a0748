-- ===== src/BuildService/Endpoints.antt =====
-- src/build_service/mapping/service.rs and pipeline/service.rs: requests to the services that say how
-- to build a package and that build it.
use pyrsia.Base.{
  ◌⊎◌, inl, inr, refl, arith, Bool-cases, Option-cases, ◌≡◌, ℕ, Bool, Option, none, some, [], ◌∷◌,
  ◌++◌, Bytes, get_elem?, leb, ltb, ◌==◌, ◌&&◌, if◌then◌else◌, codes,
}
use pyrsia.Outcome.{Outcome, ok, err, ok_or, unwrap, ◌>>=◌}
use pyrsia.TransparencyLog.Types.{PackageType, docker, maven2}
use pyrsia.BuildService.Types.{
  BuildError, MappingInfo, BuildInfo, invalid_mapping_response, invalid_pipeline_response,
  mapping_not_found, mapping_service_endpoint_failure, mapping_service_endpoint_request_failure,
  pipeline_service_endpoint_failure, pipeline_service_endpoint_request_failure,
}
use pyrsia.BuildService.Names.{slash, colon, dot, split, replace, ends_with}

-- `body` is none if it cannot be read.
pub record Response : Type 0 where
  pub status : ℕ
  pub body : Option Bytes

-- reqwest and serde_json. No response is an error of the connection.
pub record Http : Type 0 where
  pub get : Bytes → Option Response
  pub put : Bytes → MappingInfo → Option Response
  pub parse_mapping : Bytes → Option MappingInfo
  pub parse_text : Bytes → Option Bytes
  pub parse_build_info : Bytes → Option BuildInfo

-- `StatusCode::is_success`
abbrev pub is_success : ℕ → Bool
is_success status = leb 200 status && ltb status 300

-- `remove_last_character`
unfoldable pub remove_last_character : Bytes → Bytes
remove_last_character [] = []
remove_last_character (x ∷ []) = []
remove_last_character (x ∷ y ∷ ys) = x ∷ remove_last_character (y ∷ ys)

-- The endpoint that `MappingService::new` and `PipelineService::new` keep
unfoldable pub new : Bytes → Bytes
unfolding remove_last_character ends_with
new endpoint = if ends_with (slash ∷ []) endpoint then remove_last_character endpoint else endpoint

-- `.bytes()` and `.json()` of a response
abbrev read : {A : Type 0} → (Bytes → Option A) → Response → Option A
read parse response = elim response.body [ none ↦ none | some bytes ↦ parse bytes ]

-- `MappingService::get_maven_mapping`
unfoldable pub get_maven_mapping : Http → Bytes → Bytes → Outcome BuildError MappingInfo
unfolding split replace
get_maven_mapping http endpoint package_specific_id =
    let pieces = split colon package_specific_id in
    unwrap (get_elem? pieces 0) >>= λ group. unwrap (get_elem? pieces 1) >>= λ artifact_id.
    unwrap (get_elem? pieces 2) >>= λ version.
    let url =
      endpoint
      ++ codes "/Maven2/"
      ++ replace dot slash group
      ++ codes "/"
      ++ artifact_id
      ++ codes "/"
      ++ version
      ++ codes "/"
      ++ artifact_id
      ++ codes "-"
      ++ version
      ++ codes ".mapping" in
    ok_or (http.get url) mapping_service_endpoint_request_failure >>= λ response.
    if is_success response.status
    then ok_or (read http.parse_mapping response) invalid_mapping_response
    else if response.status == 404
    then err (mapping_not_found maven2 package_specific_id)
    else err (mapping_service_endpoint_failure response.status)

-- `MappingService::get_mapping`
unfoldable pub get_mapping : Http → Bytes → PackageType → Bytes → Outcome BuildError MappingInfo
unfolding get_maven_mapping
get_mapping http endpoint docker id = ok (record {
  package_type = docker;
  package_specific_id = id;
  source_repository = none;
  build_spec_url = none;
})
get_mapping http endpoint maven2 id = get_maven_mapping http endpoint id

-- The end that the three requests to the pipeline have in common
abbrev pipeline_answer : {A : Type 0} → (Bytes → Option A) → Option Response → Outcome BuildError A
pipeline_answer parse answer =
    ok_or answer pipeline_service_endpoint_request_failure >>= λ response.
    if is_success response.status
    then ok_or (read parse response) invalid_pipeline_response
    else err (pipeline_service_endpoint_failure response.status)

-- A request to the pipeline ends with a value or an error, and does not panic.
pipeline_answer-total :
    {A : Type 0} (parse : Bytes → Option A) (answer : Option Response)
    → ((a : A) × (pipeline_answer parse answer ≡ ok a))
      ⊎ ((e : BuildError) × (pipeline_answer parse answer ≡ err e))
pipeline_answer-total parse none = inr (_, refl)
pipeline_answer-total parse (some response) = elim (Bool-cases (is_success response.status)) [
  | inr bad ↦ inr (pipeline_service_endpoint_failure response.status, ground (arith, bad))
  | inl good ↦ elim (Option-cases (read parse response)) [
    | inl unread ↦ inr (invalid_pipeline_response, ground (arith, good, unread))
    | inr (a, at) ↦ inl (a, ground (arith, good, at))
  ]
]

-- `PipelineService::start_build`
unfoldable pub start_build : Http → Bytes → MappingInfo → Outcome BuildError Bytes
start_build http endpoint info =
    pipeline_answer http.parse_text (http.put (endpoint ++ codes "/build") info)

-- `PipelineService::get_build_status`
unfoldable pub get_build_status : Http → Bytes → Bytes → Outcome BuildError BuildInfo
get_build_status http endpoint build_id =
    pipeline_answer http.parse_build_info (http.get (endpoint ++ codes "/build/" ++ build_id))

pub get_build_status-total :
    (http : Http) (endpoint build_id : Bytes)
    → ((info : BuildInfo) × (get_build_status http endpoint build_id ≡ ok info))
      ⊎ ((e : BuildError) × (get_build_status http endpoint build_id ≡ err e))
unfolding get_build_status
get_build_status-total http endpoint build_id =
    pipeline_answer-total http.parse_build_info (http.get (endpoint ++ codes "/build/" ++ build_id))

-- `PipelineService::download_artifact`
unfoldable pub download_artifact : Http → Bytes → Bytes → Outcome BuildError Bytes
download_artifact http endpoint artifact_url =
    pipeline_answer (λ bytes. some bytes) (http.get (endpoint ++ artifact_url))

pub download_artifact-total :
    (http : Http) (endpoint artifact_url : Bytes)
    → ((bytes : Bytes) × (download_artifact http endpoint artifact_url ≡ ok bytes))
      ⊎ ((e : BuildError) × (download_artifact http endpoint artifact_url ≡ err e))
unfolding download_artifact
download_artifact-total http endpoint artifact_url =
    pipeline_answer-total (λ bytes. some bytes) (http.get (endpoint ++ artifact_url))
