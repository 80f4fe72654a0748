-- ===== src/Tests/Logs.antt =====
-- The theorems on the transparency log, at a table of a few rows.
use pyrsia.Base.{
  ◌<◌, ◌++◌, ℕ, ◌≡◌, ◌≢◌, refl, zero, suc, true, false, some, [], ◌∷◌, Bytes, arith, codes,
}
use pyrsia.Outcome.{err, ok}
use pyrsia.TransparencyLog.Types.{
  node_already_exists, TransparencyLog, Operation, docker, add_artifact, remove_artifact, add_node,
}
use pyrsia.TransparencyLog.Database.{IsIn, open_db, Table, is_plain, keep, bytes_eq}
use pyrsia.TransparencyLog.Reading.{
  node_rows, remove_authorized_node, find_transparency_log, get_artifact,
  verify_node_does_not_exist, verify_package_can_be_added,
}
use pyrsia.TransparencyLog.Reading.Oldest.{ArtifactAnswer, get_artifact_oldest}
use pyrsia.TransparencyLog.Reading.Newest.{NodeAnswer, verify_node_does_not_exist_newest}
use pyrsia.TransparencyLog.Reading.Packages.{
  IsStorable, PackageAnswer, verify_package_can_be_added_newest,
}
use pyrsia.TransparencyLog.Writing.{
  Outside, Draws, node_log, add_authorized_node, TransparencyLogService, has_id,
  write_transparency_log,
}
use pyrsia.TransparencyLog.Writing.Keys.{IsKeyed, write-find_transparency_log}
use pyrsia.TransparencyLog.Writing.Nodes.{add_authorized_node-verify_node_does_not_exist}
use pyrsia.Tests.Ordering.{sort_newest, database, laws}

abbrev row : Bytes → Operation → ℕ → TransparencyLog
row id operation timestamp = record {
  id = id;
  package_type = some docker;
  package_specific_id = codes "alpine";
  num_artifacts = 2;
  package_specific_artifact_id = codes "alpine/1";
  artifact_hash = [];
  source_hash = [];
  artifact_id = [];
  source_id = [];
  timestamp = timestamp;
  operation = operation;
  node_id = codes "peer";
  node_public_key = [];
}

abbrev pub added : TransparencyLog
added = row (codes "a") add_artifact 10

abbrev pub removed : TransparencyLog
removed = row (codes "b") remove_artifact 20

abbrev pub joined : TransparencyLog
joined = row (codes "c") add_node 30

abbrev table : Table
table = added ∷ removed ∷ joined ∷ []

abbrev pub empty : TransparencyLogService
empty = record { table = []; submitted = [] }

pub empty-IsKeyed : IsKeyed []
unfolding keep
empty-IsKeyed id = omega arith

pub opened : open_db database ≡ ok tt
unfolding open_db
opened = refl

pub plain_id : is_plain added.id ≡ true
unfolding is_plain
plain_id = refl

plain_peer : is_plain (codes "peer") ≡ true
unfolding is_plain
plain_peer = refl

plain_package : is_plain (codes "alpine") ≡ true
unfolding is_plain
plain_package = refl

plain_artifact : is_plain (codes "alpine/1") ≡ true
unfolding is_plain
plain_artifact = refl

new_id : has_id added.id empty.table ≡ false
unfolding has_id
new_id = refl

write-find_transparency_log_example :
    (s' : TransparencyLogService) × (write_transparency_log database added empty ≡ (ok tt, s'))
    × (find_transparency_log database added.id s'.table ≡ ok added)
    × (s'.table ≡ added ∷ [])
    × ((id : Bytes)
        → is_plain id ≡ true
        → id ≢ added.id
        → find_transparency_log database id s'.table ≡ find_transparency_log database id [])
write-find_transparency_log_example =
    write-find_transparency_log database added empty opened refl plain_id empty-IsKeyed new_id

get_artifact_oldest_example :
    ArtifactAnswer docker
      (codes "alpine/1")
      table
      (get_artifact database docker (codes "alpine/1") table)
get_artifact_oldest_example =
    get_artifact_oldest database docker (codes "alpine/1") table opened plain_artifact

-- The artifact was removed at 20, and is still found as added at 10.
get_artifact_removed : get_artifact database docker (codes "alpine/1") table ≡ ok added
unfolding get_artifact is_plain keep bytes_eq
get_artifact_removed = refl

verify_node_does_not_exist_newest_example :
    NodeAnswer (codes "peer") table (verify_node_does_not_exist database (codes "peer") table)
verify_node_does_not_exist_newest_example =
    verify_node_does_not_exist_newest database (codes "peer") table opened laws plain_peer

table-IsStorable : IsStorable table
unfolding is_plain
table-IsStorable x (zero, e) = ground (arith, e)
table-IsStorable x (suc zero, e) = ground (arith, e)
table-IsStorable x (suc (suc zero), e) = ground (arith, e)
table-IsStorable x (suc (suc (suc i)), e) = absurd (cc)

verify_package_can_be_added_newest_example :
    PackageAnswer docker
      (codes "alpine")
      table
      (verify_package_can_be_added database docker (codes "alpine") table)
verify_package_can_be_added_newest_example =
    verify_package_can_be_added_newest database docker (codes "alpine") table opened laws
      plain_package table-IsStorable

abbrev out : Outside
out = record { to_json = λ _. some (1 ∷ []); adds_block = λ _. true }

abbrev draws : Draws
draws = record {
  id = codes "d";
  artifact_id = [];
  source_id = [];
  node_id = [];
  node_public_key = [];
  now = 50;
}

free_peer : verify_node_does_not_exist database (codes "peer") [] ≡ ok tt
unfolding verify_node_does_not_exist is_plain keep sort_newest
free_peer = refl

no_rows : (y : TransparencyLog) → IsIn y (node_rows (codes "peer") []) → y.timestamp < draws.now
unfolding keep
no_rows y (i, e) = absurd (cc)

new_node : has_id draws.id [] ≡ false
unfolding has_id
new_node = refl

add_authorized_node-verify_node_does_not_exist_example :
    (s' : TransparencyLogService) × (add_authorized_node database out draws (codes "peer") empty
      ≡ (ok tt, s'))
    × (s'.submitted ≡ (1 ∷ []) ∷ [])
    × (s'.table ≡ [] ++ node_log draws (codes "peer") ∷ [])
    × ((later : Draws)
        → add_authorized_node database out later (codes "peer") s'
          ≡ (err (node_already_exists (codes "peer")), s'))
    × (remove_authorized_node database (codes "peer") s'.table ≡ ok tt)
add_authorized_node-verify_node_does_not_exist_example =
    add_authorized_node-verify_node_does_not_exist database out draws (codes "peer") (1 ∷ []) empty
      opened laws plain_peer free_peer no_rows refl new_node refl refl
