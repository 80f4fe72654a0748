-- ===== src/TransparencyLog/Reading.antt =====
-- The queries of transparency_log/log.rs, and what is decided on their answers.
pub mod Oldest
pub mod Newest
pub mod Packages
use pyrsia.Base.{
  ℕ, ◌-◌, ◌^◌, Bool, false, not, List, [], ◌∷◌, ◌++◌, Bytes, length, take, leb, ltb, ◌==◌, ◌&&◌,
  ◌||◌, if◌then◌else◌,
}
use pyrsia.Outcome.{Outcome, ok, err, panicked, ◌>>=◌}
use pyrsia.TransparencyLog.Types.{
  TransparencyLog, TransparencyLogError, PackageType, add_artifact, remove_artifact, add_node,
  remove_node, artifact_not_found, artifact_already_exists, log_not_found,
  artifact_log_is_not_consistent_state, node_already_exists, node_does_not_exist_or_removed,
  invalid_operation, same_operation, has_type, is_artifact_operation,
}
use pyrsia.TransparencyLog.Database.{
  Database, Table, open_db, process_query, keep, bytes_eq, is_plain,
}

abbrev pub rows_with_id : Bytes → Table → List TransparencyLog
rows_with_id id = keep (λ log. bytes_eq log.id id)

-- `find_transparency_log`
unfoldable pub find_transparency_log :
    Database → Bytes → Table → Outcome TransparencyLogError TransparencyLog
unfolding process_query
find_transparency_log db id table =
    process_query db (id ∷ []) (rows_with_id id) table >>= λ results. elim results [
      | [] ↦ err (log_not_found id)
      | log ∷ rest ↦ elim rest [ [] ↦ ok log | _ ∷ _ ↦ err (log_not_found id) ]
    ]

-- `sort_by` with `a.timestamp.cmp(&b.timestamp)`: stable, the oldest first
unfoldable pub insert : TransparencyLog → List TransparencyLog → List TransparencyLog
insert x [] = x ∷ []
insert x (y ∷ ys) = if leb x.timestamp y.timestamp then x ∷ y ∷ ys else y ∷ insert x ys

unfoldable pub sort_by_timestamp : List TransparencyLog → List TransparencyLog
unfolding insert
sort_by_timestamp [] = []
sort_by_timestamp (x ∷ xs) = insert x (sort_by_timestamp xs)

-- The rows that the query of `read_transparency_log` asks for
abbrev pub artifact_rows : PackageType → Bytes → Table → List TransparencyLog
artifact_rows t said =
    keep (λ log. has_type t log && bytes_eq log.package_specific_artifact_id said)

-- `read_transparency_log`
unfoldable pub read_transparency_log :
    Database → PackageType → Bytes → Table → Outcome TransparencyLogError TransparencyLog
unfolding process_query sort_by_timestamp
read_transparency_log db t said table =
    process_query db (said ∷ []) (artifact_rows t said) table >>= λ results.
    elim (sort_by_timestamp (keep (λ log. is_artifact_operation log.operation) results)) [
      | [] ↦ err (artifact_not_found t said)
      | log ∷ _ ↦
          if same_operation log.operation remove_artifact
          then err (invalid_operation log.id log.operation)
          else ok log
    ]

-- `get_artifact`
unfoldable pub get_artifact :
    Database → PackageType → Bytes → Table → Outcome TransparencyLogError TransparencyLog
unfolding read_transparency_log
get_artifact = read_transparency_log

-- The rows of a package
abbrev pub package_rows : PackageType → Bytes → Table → List TransparencyLog
package_rows t psi = keep (λ log.
    is_artifact_operation log.operation && has_type t log && bytes_eq log.package_specific_id psi)

-- The other AddArtifact rows of a package
abbrev pub other_rows : PackageType → Bytes → Bytes → Table → List TransparencyLog
other_rows t psi id = keep (λ log.
    same_operation log.operation add_artifact
    && has_type t log
    && bytes_eq log.package_specific_id psi
    && not (bytes_eq log.id id))

-- The loop of `read_last_transparency_log`, which pushes the records onto `res`
unfoldable pub push_added :
    PackageType
    → Bytes
    → ℕ
    → List TransparencyLog
    → List TransparencyLog
    → Outcome TransparencyLogError (List TransparencyLog)
push_added t psi num_artifacts res [] = ok res
push_added t psi num_artifacts res (rec ∷ recs) =
    let rest = push_added t psi num_artifacts (res ++ rec ∷ []) recs in
    if same_operation rec.operation add_artifact
    then rest
    else if leb (2 ^ 32) (length res)
    then panicked
    else err (artifact_log_is_not_consistent_state t psi num_artifacts (length res))

-- Its second part, for the first record `log` of `res`
unfoldable pub read_other_artifacts :
    Database
    → PackageType
    → Bytes
    → TransparencyLog
    → List TransparencyLog
    → Table
    → Outcome TransparencyLogError (List TransparencyLog)
unfolding process_query push_added
read_other_artifacts db t psi log res table =
    process_query db (psi ∷ log.id ∷ [])
      (λ rows. take (log.num_artifacts - 1) (db.newest_first (other_rows t psi log.id rows))) table
    >>= λ second_res. push_added t psi log.num_artifacts res second_res >>= λ res'.
        if leb (2 ^ 32) (length res')
        then panicked
        else if length res' == log.num_artifacts
        then ok res'
        else err (artifact_log_is_not_consistent_state t psi log.num_artifacts (length res'))

-- `read_last_transparency_log`
unfoldable pub read_last_transparency_log :
    Database → PackageType → Bytes → Table → Outcome TransparencyLogError (List TransparencyLog)
unfolding process_query read_other_artifacts
read_last_transparency_log db t psi table =
    process_query db (psi ∷ []) (λ rows. take 1 (db.newest_first (package_rows t psi rows))) table
    >>= λ res. elim res [
      | [] ↦ ok []
      | log ∷ rest ↦
          if same_operation log.operation add_artifact && ltb 1 log.num_artifacts
          then read_other_artifacts db t psi log (log ∷ rest) table
          else ok (log ∷ rest)
    ]

-- `read_transparency_logs`
unfoldable pub read_transparency_logs :
    Database → PackageType → Bytes → Table → Outcome TransparencyLogError (List TransparencyLog)
unfolding process_query
read_transparency_logs db t psi table =
    process_query db (psi ∷ []) (λ rows. db.oldest_first (package_rows t psi rows)) table

-- `search_transparency_logs`
unfoldable pub search_transparency_logs :
    Database
    → PackageType
    → Bytes
    → Bool
    → Table
    → Outcome TransparencyLogError (List TransparencyLog)
unfolding read_last_transparency_log read_transparency_logs
search_transparency_logs db t psi latest table =
    if latest
    then read_last_transparency_log db t psi table
    else read_transparency_logs db t psi table

-- `verify_package_can_be_added_to_transparency_logs`
unfoldable pub verify_package_can_be_added :
    Database → PackageType → Bytes → Table → Outcome TransparencyLogError (Unit {0})
unfolding read_last_transparency_log
verify_package_can_be_added db t psi table = read_last_transparency_log db t psi table >>= λ res.
    elim res [
      | [] ↦ ok tt
      | log ∷ _ ↦
          if same_operation log.operation add_artifact
          then err (artifact_already_exists t psi)
          else ok tt
    ]

-- The rows of a node
abbrev pub node_rows : Bytes → Table → List TransparencyLog
node_rows peer_id = keep (λ log.
    (same_operation log.operation add_node || same_operation log.operation remove_node)
    && bytes_eq log.node_id peer_id)

abbrev newest_adds_node : List TransparencyLog → Bool
newest_adds_node [] = false
newest_adds_node (log ∷ _) = same_operation log.operation add_node

-- `verify_node_does_not_exist`. A query that fails counts as one that finds nothing.
unfoldable pub verify_node_does_not_exist :
    Database → Bytes → Table → Outcome TransparencyLogError (Unit {0})
unfolding open_db
verify_node_does_not_exist db peer_id table = open_db db >>= λ _.
    if (if is_plain peer_id
      then newest_adds_node (db.newest_first (node_rows peer_id table))
      else db.malformed_node peer_id table)
    then err (node_already_exists peer_id)
    else ok tt

-- `remove_authorized_node`
unfoldable pub remove_authorized_node :
    Database → Bytes → Table → Outcome TransparencyLogError (Unit {0})
unfolding verify_node_does_not_exist
remove_authorized_node db peer_id table = elim (verify_node_does_not_exist db peer_id table) [
  | ok _ ↦ err (node_does_not_exist_or_removed peer_id)
  | err _ ↦ ok tt
  | panicked ↦ panicked
]
