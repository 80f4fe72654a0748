-- ===== src/Handlers/Docker.antt =====
-- src/docker/v2/handlers: the identifiers and the handlers of manifests and blobs.
pub mod Served
use pyrsia.Base.{
  Bool, true, false, ◌&&◌, Option, none, some, List, [], ◌∷◌, Bytes, ◌++◌, length, take, codes,
  if◌then◌else◌,
}
use pyrsia.Outcome.{ok, err}
use pyrsia.Exec.{Exec, lift, pure, ◌>>=◌}
use pyrsia.TransparencyLog.Types.{docker}
use pyrsia.TransparencyLog.Database.{bytes_eq}
use pyrsia.BuildService.Names.{contains, slash}
use pyrsia.ArtifactService.Service.{
  ArtifactService, ArtifactError, World, get_artifact, get_artifact_or_build,
}
use pyrsia.NodeApi.Errors.{
  Rejection, not_found, method_not_allowed, manifest_unknown, blob_unknown, ok_status,
}
use pyrsia.NodeApi.Handlers.{Response, artifact_content, empty_json, or_reject}

-- `str::starts_with`
unfoldable pub starts_with : Bytes → Bytes → Bool
starts_with beginning text = bytes_eq (take (length beginning) text) beginning

-- The end of the two functions `get_package_specific_artifact_id`
abbrev pub in_library : Bytes → Bytes
in_library combined_tag =
    if contains slash combined_tag then combined_tag else codes "library/" ++ combined_tag

-- `get_package_specific_artifact_id` of manifests.rs
unfoldable pub manifest_id : Bytes → Bytes → Bytes
manifest_id name tag = in_library (
    if starts_with (codes "sha256:") tag
    then name ++ codes "@" ++ tag
    else name ++ codes ":" ++ tag)

-- `get_package_specific_artifact_id` of blobs.rs
unfoldable pub blob_id : Bytes → Bytes → Bytes
blob_id name digest = in_library (name ++ codes "@" ++ digest)

-- The two responses
abbrev pub manifest_response : Bytes → Response
manifest_response manifest_content = record {
  status = ok_status;
  content_type = some (codes "application/vnd.docker.distribution.manifest.v2+json");
  body = artifact_content manifest_content;
}

abbrev pub blob_response : Bytes → Response
blob_response blob_content = record {
  status = ok_status;
  content_type = some (codes "application/octet-stream");
  body = artifact_content blob_content;
}

module _ {S : Type 0} (w : World S) where
  -- `fetch_manifest`
  unfoldable pub fetch_manifest : Bytes → Bytes → Exec (ArtifactService S) Rejection Response
  fetch_manifest name tag = do
    manifest_content ←
        or_reject (λ e. record { code = manifest_unknown })
          (get_artifact w docker (manifest_id name tag))
    pure (manifest_response manifest_content)

  -- `fetch_manifest_or_build`
  unfoldable pub fetch_manifest_or_build :
      Bytes → Bytes → Exec (ArtifactService S) Rejection Response
  fetch_manifest_or_build name tag = do
    manifest_content ←
        or_reject (λ e. record { code = manifest_unknown })
          (get_artifact_or_build w docker (manifest_id name tag) (manifest_id name tag))
    pure (manifest_response manifest_content)

  -- `handle_get_blobs`
  unfoldable pub handle_get_blobs : Bytes → Bytes → Exec (ArtifactService S) Rejection Response
  handle_get_blobs name digest = do
    blob_content ←
        or_reject (λ e. record { code = blob_unknown })
          (get_artifact_or_build w docker (blob_id name digest) (blob_id name digest))
    pure (blob_response blob_content)
