-- ===== src/ArtifactService/Storage.antt =====
-- src/artifact_service/storage.rs: the directory of artifacts.
pub mod Kept
use pyrsia.Base.{
  ℕ, Bool, true, false, Option, none, some, List, [], ◌∷◌, Bytes, if◌then◌else◌, codes,
}
use pyrsia.Outcome.{Outcome, ok, err, panicked, ◌>>=◌}
use pyrsia.TransparencyLog.Database.{bytes_eq}

-- The files, by their paths
abbrev pub Files : Type 0
Files = Bytes → Option Bytes

-- What std::path makes of paths, and what std::fs answers: whether a new file can be made, how much of
-- the bytes comes into it and whether copying them succeeds, and whether a file can be read.
pub record System : Type 0 where
  pub join : Bytes → Bytes → Bytes
  pub set_extension : Bytes → Bytes → Bytes
  pub extension : Bytes → Option Bytes
  pub can_create : Bytes → Bool
  pub copy : Bytes → Bytes → Bytes × Bool
  pub can_read : Bytes → Bool

pub record ArtifactStorage : Type 0 where
  pub repository_path : Bytes

-- `io::Error`, and the error of `ArtifactStorage::new`
pub data IoError : Type 0 where
  io_error not_a_directory : IoError

-- `ArtifactStorage::new`: what `canonicalize` makes of the path, and whether a path is a directory
unfoldable pub new : Option Bytes → (Bytes → Bool) → Outcome IoError ArtifactStorage
new none is_dir = err io_error
new (some absolute_path) is_dir =
    if is_dir absolute_path
    then ok (record { repository_path = absolute_path })
    else err not_a_directory

module _ (sys : System) (storage : ArtifactStorage) where
  -- `base_file_path`
  unfoldable pub base_file_path : Bytes → Bytes
  base_file_path artifact_id = sys.join storage.repository_path artifact_id

  -- `artifact_file_path`
  unfoldable pub artifact_file_path : Bytes → Bytes
  unfolding base_file_path
  artifact_file_path artifact_id = sys.set_extension (base_file_path artifact_id) (codes "file")

  -- `create_artifact_file`: `create_new` fails when the file is there.
  unfoldable pub create_artifact_file : Bytes → Files → Outcome IoError Files
  create_artifact_file artifact_id files =
      let path = artifact_file_path artifact_id in
      elim (files path) [
        | some _ ↦ err io_error
        | none ↦
            if sys.can_create path
            then ok (λ other. if bytes_eq path other then some [] else files other)
            else err io_error
      ]

  -- `push_artifact`
  unfoldable pub push_artifact : Bytes → Bytes → Files → Outcome IoError (Unit {0}) × Files
  push_artifact bytes artifact_id files = elim (create_artifact_file artifact_id files) [
    | err e ↦ (err e, files)
    | panicked ↦ (panicked, files)
    | ok created ↦
        let path = artifact_file_path artifact_id in
        let (written, complete) = sys.copy path bytes in
        let files' : Files = λ other. if bytes_eq path other then some written else created other in
        (if complete then ok tt else err io_error, files')
  ]

  -- `pull_artifact`, and what reading it to its end gives
  unfoldable pub pull_artifact : Bytes → Files → Outcome IoError Bytes
  pull_artifact artifact_id files =
      let path = artifact_file_path artifact_id in
      elim (files path) [
        | none ↦ err io_error
        | some content ↦ if sys.can_read path then ok content else err io_error
      ]

  -- The `filter_map` of `list_artifacts`. An entry that cannot be read is a panic.
  unfoldable pub filter_entries : List (Option Bytes) → Outcome IoError (List Bytes)
  filter_entries [] = ok []
  filter_entries (none ∷ entries) = panicked
  filter_entries (some path ∷ entries) = filter_entries entries >>= λ rest.
      elim (sys.extension path) [
        | none ↦ ok rest
        | some ext ↦ if bytes_eq ext (codes "file") then ok (path ∷ rest) else ok rest
      ]

  -- `list_artifacts`: whether the repository is a directory, and what `read_dir` answers
  unfoldable pub list_artifacts : Bool → Option (List (Option Bytes)) → Outcome IoError (List Bytes)
  list_artifacts false entries = ok []
  list_artifacts true none = err io_error
  list_artifacts true (some entries) = filter_entries entries
