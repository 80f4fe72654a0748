-- ===== src/TransparencyLog/Database.antt =====
-- The table TRANSPARENCYLOG of src/transparency_log/log.rs, and what the queries ask of SQLite.
mod Texts
pub use Texts.{bytes_eq_iff, keep-IsIn, IsIn-keep, take-IsIn, keep-append}
unfoldable pub use Texts.{bytes_eq, is_plain, keep, IsIn}
use pyrsia.Base.{
  ℕ, ◌≤◌, ◌≡◌, ◌↔◌, Bool, true, false, Option, none, some, List, [], ◌∷◌, Bytes, ◌&&◌, length,
  if◌then◌else◌,
}
use pyrsia.Outcome.{Outcome, ok, err, ◌>>=◌}
use pyrsia.TransparencyLog.Types.{
  TransparencyLog, TransparencyLogError, storage_failure, database_failure,
}

-- The rows in the order in which they were inserted.
abbrev pub Table : Type 0
Table = List TransparencyLog

-- `makes_directory` is whether the directory is there or can be made, `connects` whether SQLite opens
-- the file and has the table, and `accepts` whether rusqlite can bind the values of a row. `malformed` is the answer to a query one of whose spliced
-- texts holds a quote, so that it is another statement than the one that was meant, and
-- `malformed_node` whether such a query for one operation answers "AddNode". Both are SELECT
-- statements, so they change no row. `newest_by_node` is `GROUP BY node_id` under `max(timestamp)`.
pub record Database : Type 0 where
  pub makes_directory : Bool
  pub connects : Bool
  pub accepts : TransparencyLog → Bool
  pub malformed : List Bytes → Table → Outcome TransparencyLogError (List TransparencyLog)
  pub malformed_node : Bytes → Table → Bool
  pub newest_first : List TransparencyLog → List TransparencyLog
  pub oldest_first : List TransparencyLog → List TransparencyLog
  pub newest_by_node : List TransparencyLog → List TransparencyLog

-- Each row is at most as new as the ones before it.
abbrev pub IsNewestFirst : List TransparencyLog → Type 0
IsNewestFirst [] = Unit {0}
IsNewestFirst (x ∷ xs) =
    ((y : TransparencyLog) → IsIn y xs → y.timestamp ≤ x.timestamp) × IsNewestFirst xs

-- `ORDER BY timestamp DESC`, as documented: the same rows, as many as before, the newest first.
pub record DatabaseLaws (db : Database) : Type 0 where
  pub orders : (rows : List TransparencyLog) → IsNewestFirst (db.newest_first rows)
  pub keeps :
      (rows : List TransparencyLog) (x : TransparencyLog)
      → IsIn x (db.newest_first rows) ↔ IsIn x rows
  pub sizes : (rows : List TransparencyLog) → length (db.newest_first rows) ≡ length rows

-- `open_db`
unfoldable pub open_db : Database → Outcome TransparencyLogError (Unit {0})
open_db db =
    if db.makes_directory
    then (if db.connects then ok tt else err database_failure)
    else err storage_failure

abbrev pub all_plain : List Bytes → Bool
all_plain [] = true
all_plain (t ∷ ts) = is_plain t && all_plain ts

-- `process_query`. The query splices the texts, and asks for `answer` of the rows.
unfoldable pub process_query :
    Database
    → List Bytes
    → (Table → List TransparencyLog)
    → Table
    → Outcome TransparencyLogError (List TransparencyLog)
unfolding open_db
process_query db texts answer table =
    open_db db >>= λ _. if all_plain texts then ok (answer table) else db.malformed texts table
