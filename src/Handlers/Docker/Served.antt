-- ===== src/Handlers/Docker/Served.antt =====
-- What the Docker handlers of src/docker/v2/handlers hand out.
use pyrsia.Base.{◌≡◌, ◌↔◌, ap, ◌∙◌, Bytes, arith, inl, inr}
use pyrsia.Outcome.{Outcome, ok, panicked}
use pyrsia.TransparencyLog.Types.{TransparencyLog, docker}
use pyrsia.TransparencyLog.Reading
use pyrsia.ArtifactService.Service.{
  ArtifactService, ArtifactError, World, fetch, get_artifact, get_artifact_or_build,
}
use pyrsia.ArtifactService.Service.Verified.{Outcome-cases, hash_of, get_artifact_verified}
use pyrsia.NodeApi.Handlers.{Response, artifact_content, or_reject}
use pyrsia.Handlers.Docker.{manifest_id, manifest_response, fetch_manifest_or_build}

module _ {S : Type 0} (w : World S) (name tag : Bytes) (s : ArtifactService S) where
  abbrev id : Bytes
  id = manifest_id name tag

  abbrev body_of : Response → Outcome ArtifactError Bytes
  body_of r = elim r.body [ artifact_content bytes ↦ ok bytes | _ ↦ panicked ]

  handed-out :
      (bytes : Bytes)
      → (get_artifact w docker id s).0 ≡ ok bytes
      → (fetch_manifest_or_build w name tag s).0 ≡ ok (manifest_response bytes)
  unfolding fetch_manifest_or_build or_reject get_artifact_or_build
  handed-out bytes e = ground (arith, e)

  out-handed :
      (bytes : Bytes)
      → (fetch_manifest_or_build w name tag s).0 ≡ ok (manifest_response bytes)
      → (get_artifact w docker id s).0 ≡ ok bytes
  unfolding fetch_manifest_or_build or_reject get_artifact_or_build
  out-handed bytes h = elim (Outcome-cases (get_artifact w docker id s).0) [
    | inl (found, e) ↦
        let same : manifest_response found ≡ manifest_response bytes = ground (arith, e, h) in
        e ∙ ap body_of same
    | inr (inl (d, e)) ↦ absurd (ground (arith, e, h))
    | inr (inr e) ↦ absurd (ground (arith, e, h))
  ]

  -- For a manifest that the transparency log has: what is asked for by name and tag is answered with
  -- some bytes exactly when these were found, in the store or at a peer, and have the hash of the log.
  pub fetch_manifest_or_build_verified :
      (log : TransparencyLog) (bytes : Bytes)
      → Reading.get_artifact w.db docker (manifest_id name tag) s.logs.table ≡ ok log
      → ((fetch_manifest_or_build w name tag s).0 ≡ ok (manifest_response bytes))
        ↔ (((fetch w log.artifact_id s).0 ≡ ok bytes) × (hash_of w bytes ≡ log.artifact_hash))
  fetch_manifest_or_build_verified log bytes at =
      let (there, back) = get_artifact_verified w docker id log s at bytes in
      (λ h. there (out-handed bytes h), λ k. handed-out bytes (back k))
