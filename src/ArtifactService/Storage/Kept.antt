-- ===== src/ArtifactService/Storage/Kept.antt =====
-- Storing an artifact and reading it again, as src/artifact_service/storage.rs does.
use pyrsia.Base.{◌≡◌, ◌≢◌, true, none, Bytes, arith, inl, inr, sym, Bool-cases}
use pyrsia.Outcome.{ok, err}
use pyrsia.TransparencyLog.Database.{bytes_eq, bytes_eq_iff}
use pyrsia.ArtifactService.Storage.{
  Files, System, ArtifactStorage, io_error, artifact_file_path, create_artifact_file, push_artifact,
  pull_artifact,
}

module _ (sys : System) (storage : ArtifactStorage) (artifact_id bytes : Bytes)
    (files : Files) where
  abbrev path : Bytes
  path = artifact_file_path sys storage artifact_id

  -- An artifact that is pushed where there is none, by a file system that writes and reads it, is
  -- pulled as it was; no other file changes, and pushing anything under its identifier again fails
  -- and leaves it as it is.
  pub push-pull_artifact :
      files (artifact_file_path sys storage artifact_id) ≡ none
      → sys.can_create (artifact_file_path sys storage artifact_id) ≡ true
      → sys.copy (artifact_file_path sys storage artifact_id) bytes ≡ (bytes, true)
      → sys.can_read (artifact_file_path sys storage artifact_id) ≡ true
      → let (r, files') = push_artifact sys storage bytes artifact_id files in
        (r ≡ ok tt)
        × (pull_artifact sys storage artifact_id files' ≡ ok bytes)
        × ((other : Bytes)
            → other ≢ artifact_file_path sys storage artifact_id
            → files' other ≡ files other)
        × ((again : Bytes)
            → push_artifact sys storage again artifact_id files' ≡ (err io_error, files'))
  unfolding push_artifact pull_artifact create_artifact_file
  push-pull_artifact free creates copies reads =
      let self = bytes_eq_iff path path in
      (
        ground (arith, free, creates, copies),
        ground (arith, free, creates, copies, reads, self),
        (λ other apart. elim (Bool-cases (bytes_eq path other)) [
          | inl same ↦ absurd (apart (sym ((bytes_eq_iff path other).0 same)))
          | inr different ↦ ground (arith, free, creates, copies, different)
        ]),
        (λ again. ground (arith, free, creates, copies, self)),
      )
