-- ===== src/Handlers/Maven/Serving.antt =====
-- `handle_get_maven_artifact` of src/java/maven2/handlers/maven_artifacts.rs.
use pyrsia.Base.{◌≡◌, ◌++◌, some, [], ◌∷◌, Bytes, codes, arith}
use pyrsia.Outcome.{ok, err}
use pyrsia.Exec.{Exec, lift, pure, ◌>>=◌}
use pyrsia.TransparencyLog.Types.{maven2}
use pyrsia.ArtifactService.Service.{
  ArtifactService, ArtifactError, World, get_artifact, get_artifact_or_build,
}
use pyrsia.NodeApi.Errors.{Rejection, custom, unknown, ok_status}
use pyrsia.NodeApi.Handlers.{Response, artifact_content, or_reject}
use pyrsia.Handlers.Maven.{PathError, get_package_specific_id, get_package_specific_artifact_id}

-- `to_string` of the errors
pub record RequestTexts : Type 0 where
  pub path_error_text : PathError → Bytes
  pub artifact_error_text : ArtifactError → Bytes

abbrev pub artifact_response : Bytes → Response
artifact_response bytes = record {
  status = ok_status;
  content_type = some (codes "application/octet-stream");
  body = artifact_content bytes;
}

module _ {S : Type 0} (w : World S) (texts : RequestTexts) where
  -- `handle_get_maven_artifact`
  unfoldable pub handle_get_maven_artifact : Bytes → Exec (ArtifactService S) Rejection Response
  handle_get_maven_artifact full_path = do
    package_specific_id ←
        or_reject (λ e. record { code = unknown (texts.path_error_text e) })
          (lift (get_package_specific_id full_path))
    package_specific_artifact_id ←
        or_reject (λ e. record { code = unknown (texts.path_error_text e) })
          (lift (get_package_specific_artifact_id full_path))
    bytes ←
        or_reject (λ e. record { code = unknown (texts.artifact_error_text e) })
          (get_artifact_or_build w maven2 package_specific_id package_specific_artifact_id)
    pure (artifact_response bytes)

  module _ (full_path id said : Bytes) (s : ArtifactService S)
      (names : get_package_specific_id full_path ≡ ok id)
      (names_artifact : get_package_specific_artifact_id full_path ≡ ok said) where
    handed-out :
        (bytes : Bytes)
        → (get_artifact w maven2 said s).0 ≡ ok bytes
        → (handle_get_maven_artifact full_path s).0 ≡ ok (artifact_response bytes)
    unfolding handle_get_maven_artifact or_reject get_artifact_or_build
    handed-out bytes e = ground (arith, names, names_artifact, e)

    -- A Maven artifact that is not handed out, for an error, is rejected with the text of the error
    -- and a build of its package is spawned.
    pub handle_get_maven_artifact_missing :
        (e : ArtifactError) (s1 : ArtifactService S)
        → get_artifact w maven2 said s ≡ (err e, s1)
        → handle_get_maven_artifact full_path s ≡ (
          err (custom (record { code = unknown (texts.artifact_error_text e) })),
          record s1 { spawned = s1.spawned ++ (maven2, id) ∷ [] },
        )
    unfolding handle_get_maven_artifact or_reject get_artifact_or_build
    handle_get_maven_artifact_missing e s1 h = ground (arith, names, names_artifact, h)
