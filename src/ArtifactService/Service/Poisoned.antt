-- ===== src/ArtifactService/Service/Poisoned.antt =====
-- What becomes of wrong bytes that a peer sent to `get_artifact` of src/artifact_service/service.rs.
use pyrsia.Base.{◌≡◌, ◌≢◌, sym, ap, ◌∙◌, false, Bytes, arith, inl, inr, Bool-cases}
use pyrsia.Outcome.{Outcome, ok, err}
use pyrsia.TransparencyLog.Types.{TransparencyLog, PackageType, invalid_hash}
use pyrsia.TransparencyLog.Database.{bytes_eq, bytes_eq_iff}
use pyrsia.TransparencyLog.Reading
use pyrsia.ArtifactService.Storage.{artifact_file_path, pull_artifact}
use pyrsia.ArtifactService.Service.{
  ArtifactService, ArtifactError, World, log_failed, fetch, get_artifact,
}
use pyrsia.ArtifactService.Service.Verified.{
  hash_of, fetch-Kept, fetch-local, pull_artifact-same, get_artifact-fetched,
}

-- If what was fetched for an artifact of the log, from a peer or from the store, has not the hash of
-- the log, then `get_artifact` reports the hash, and the bytes are in the store when it returns: as
-- long as their file is as it left it, every later call for that log reports the same and changes
-- nothing.
pub get_artifact_poisoned :
    {S : Type 0} (w : World S) (t : PackageType) (said : Bytes) (log : TransparencyLog)
    (bytes : Bytes) (s later : ArtifactService S)
    → Reading.get_artifact w.db t said s.logs.table ≡ ok log
    → (fetch w log.artifact_id s).0 ≡ ok bytes
    → hash_of w bytes ≢ log.artifact_hash
    → later.files (artifact_file_path w.sys w.storage log.artifact_id)
      ≡ (get_artifact w t said s).1.files (artifact_file_path w.sys w.storage log.artifact_id)
    → Reading.get_artifact w.db t said later.logs.table ≡ ok log
    → let bad : Outcome ArtifactError Bytes = err (
        log_failed
          (invalid_hash log.package_specific_artifact_id (hash_of w bytes) log.artifact_hash)) in
      ((get_artifact w t said s).0 ≡ bad)
      × (pull_artifact w.sys w.storage log.artifact_id (get_artifact w t said s).1.files ≡ ok bytes)
      × (get_artifact w t said later ≡ (bad, later))
get_artifact_poisoned {S = S} w t said log bytes s later at found wrong same_file at' =
    let differs : bytes_eq log.artifact_hash (hash_of w bytes) ≡ false =
      elim (Bool-cases (bytes_eq log.artifact_hash (hash_of w bytes))) [
        | inl same ↦
            absurd (wrong (sym ((bytes_eq_iff log.artifact_hash (hash_of w bytes)).0 same)))
        | inr different ↦ different
      ] in
    let ends : (get_artifact w t said s).1 ≡ (fetch w log.artifact_id s).1 =
      ap (λ r. r.1) (get_artifact-fetched w t said log s at bytes found) in
    let kept : pull_artifact w.sys w.storage log.artifact_id later.files ≡ ok bytes =
      pull_artifact-same w log.artifact_id later.files (fetch w log.artifact_id s).1.files (
        same_file
        ∙ ap
            (λ (x : ArtifactService S).
              x.files (artifact_file_path w.sys w.storage log.artifact_id))
            ends)
      ∙ fetch-Kept w log.artifact_id bytes s found in
    let local : fetch w log.artifact_id later ≡ (ok bytes, later) =
      fetch-local w log.artifact_id bytes later kept in
    (
      ap (λ r. r.0) (get_artifact-fetched w t said log s at bytes found) ∙ ground (arith, differs),
      ap (λ (x : ArtifactService S). pull_artifact w.sys w.storage log.artifact_id x.files) ends
          ∙ fetch-Kept w log.artifact_id bytes s found,
      get_artifact-fetched w t said log later at' bytes (ap (λ r. r.0) local)
          ∙ ground (arith, differs, local),
    )
