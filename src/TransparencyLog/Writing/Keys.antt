-- ===== src/TransparencyLog/Writing/Keys.antt =====
-- What `write_transparency_log` and `write_if_not_exists` do to the table of
-- src/transparency_log/log.rs, whose key is the column `id`.
use pyrsia.Base.{
  ◌⊎◌, ◌≤◌, ◌≡◌, ◌≢◌, refl, ap, ◌∙◌, Bool, true, false, List, [], ◌∷◌, ◌++◌, Bytes, arith, length,
  inl, inr, Bool-cases, subst,
}
use mathlib.Core.List.{append-nil}
use pyrsia.Outcome.{ok, err}
use pyrsia.TransparencyLog.Types.{TransparencyLog, log_not_found}
use pyrsia.TransparencyLog.Database.{
  open_db, Database, Table, open_db, bytes_eq, bytes_eq_iff, is_plain, keep, keep-append,
}
use pyrsia.TransparencyLog.Reading.{find_transparency_log, rows_with_id}
use pyrsia.TransparencyLog.Writing.{
  TransparencyLogService, has_id, write_transparency_log, write_if_not_exists,
}

-- No two rows have the same identifier.
abbrev pub IsKeyed : Table → Type 0
IsKeyed table = (id : Bytes) → length (rows_with_id id table) ≤ 1

rows_with_id-absent :
    (id : Bytes) (table : Table) → has_id id table ≡ false → rows_with_id id table ≡ []
unfolding has_id keep
rows_with_id-absent id [] h = refl
rows_with_id-absent id (log ∷ logs) h = elim (Bool-cases (bytes_eq log.id id)) [
  | inl same ↦ absurd (ground arith)
  | inr other ↦ ground (arith, rows_with_id-absent id logs (ground arith))
]

rows_with_id-present :
    (id : Bytes) (table : Table)
    → has_id id table ≡ true
    → (log : TransparencyLog) × (rest : List TransparencyLog) × (rows_with_id id table ≡ log ∷ rest)
unfolding has_id keep
rows_with_id-present id [] h = absurd (ground arith)
rows_with_id-present id (log ∷ logs) h = elim (Bool-cases (bytes_eq log.id id)) [
  | inl same ↦ (log, rows_with_id id logs, ground arith)
  | inr other ↦
      let (found, rest, e) = rows_with_id-present id logs (ground arith) in
      (found, rest, ground (arith, e))
]

rows_with_id-append :
    (log : TransparencyLog) (id : Bytes) (table : Table)
    → id ≢ log.id
    → rows_with_id id (table ++ log ∷ []) ≡ rows_with_id id table
unfolding keep
rows_with_id-append log id table h =
    let test : TransparencyLog → Bool = λ x. bytes_eq x.id id in
    let out : keep test (log ∷ []) ≡ [] = ground (arith, bytes_eq_iff log.id id) in
    keep-append test table (log ∷ [])
    ∙ (ap (λ rows. keep test table ++ rows) out ∙ append-nil (keep test table))

rows_with_id-written :
    (log : TransparencyLog) (table : Table)
    → has_id log.id table ≡ false
    → rows_with_id log.id (table ++ log ∷ []) ≡ log ∷ []
unfolding keep
rows_with_id-written log table h =
    let test : TransparencyLog → Bool = λ x. bytes_eq x.id log.id in
    let new : keep test (log ∷ []) ≡ log ∷ [] = ground (arith, bytes_eq_iff log.id log.id) in
    keep-append test table (log ∷ [])
    ∙ (ap (λ rows. rows ++ keep test (log ∷ [])) (rows_with_id-absent log.id table h) ∙ new)

find_transparency_log_lem :
    (db : Database) (id : Bytes) (table : Table)
    → open_db db ≡ ok tt
    → is_plain id ≡ true
    → IsKeyed table
    → find_transparency_log db id table
      ≡ elim (rows_with_id id table) [ [] ↦ err (log_not_found id) | log ∷ _ ↦ ok log ]
unfolding find_transparency_log
find_transparency_log_lem db id table o h keyed = let at_most_one = keyed id in ground (arith)

written-IsKeyed :
    (log : TransparencyLog) (table : Table)
    → has_id log.id table ≡ false
    → IsKeyed table
    → IsKeyed (table ++ log ∷ [])
written-IsKeyed log table h keyed id = elim (Bool-cases (bytes_eq id log.id)) [
  | inl same ↦
      let e : log.id ≡ id = ground (arith, bytes_eq_iff id log.id) in
      let one : length (rows_with_id log.id (table ++ log ∷ [])) ≤ 1 =
        ground (arith, rows_with_id-written log table h) in
      subst (λ k. length (rows_with_id k (table ++ log ∷ [])) ≤ 1) e one
  | inr other ↦
      let apart : id ≢ log.id = ground (arith, bytes_eq_iff id log.id) in
      ground (arith, rows_with_id-append log id table apart, keyed id)
]

-- Whatever is written, and on every branch, no two rows of the database come to have the same
-- identifier, when none had before.
pub write_transparency_log-IsKeyed :
    (db : Database) (log : TransparencyLog) (s : TransparencyLogService)
    → IsKeyed s.table
    → IsKeyed (write_transparency_log db log s).1.table
unfolding write_transparency_log open_db
write_transparency_log-IsKeyed db log s keyed = elim (Bool-cases (has_id log.id s.table)) [
  | inl taken ↦ λ id. ground (arith, taken, keyed id)
  | inr new ↦
      let after = written-IsKeyed log s.table new keyed in λ id. ground (arith, keyed id, after id)
]

-- A record with a new identifier, in a database that opens and can bind its values, is written;
-- then looking it up by its identifier finds exactly that record, and looking up any other
-- identifier finds what it found before. Texts with a quote or a zero are left out.
pub write-find_transparency_log :
    (db : Database) (log : TransparencyLog) (s : TransparencyLogService)
    → open_db db ≡ ok tt
    → db.accepts log ≡ true
    → is_plain log.id ≡ true
    → IsKeyed s.table
    → has_id log.id s.table ≡ false
    → (s' : TransparencyLogService) × (write_transparency_log db log s ≡ (ok tt, s'))
      × (find_transparency_log db log.id s'.table ≡ ok log)
      × (s'.table ≡ s.table ++ log ∷ [])
      × ((id : Bytes)
          → is_plain id ≡ true
          → id ≢ log.id
          → find_transparency_log db id s'.table ≡ find_transparency_log db id s.table)
unfolding write_transparency_log open_db
write-find_transparency_log db log s o a plain keyed new =
    let after = written-IsKeyed log s.table new keyed in
    let t : Table = s.table ++ log ∷ [] in
    (
      record s { table = t },
      ground (arith),
      ground (
        arith,
        find_transparency_log_lem db log.id t o plain after,
        rows_with_id-written log s.table new,
      ),
      refl,
      λ id p apart. ground (
        arith,
        find_transparency_log_lem db id t o p after,
        find_transparency_log_lem db id s.table o p keyed,
        rows_with_id-append log id s.table apart,
      ),
    )

-- In a database that opens and can bind the record's values, `write_if_not_exists` succeeds; what is
-- found under the identifier afterwards is the record, or what was found there before; and a second
-- call changes nothing. Identifiers with a quote or a zero are left out.
pub write_if_not_exists_idempotent :
    (db : Database) (log : TransparencyLog) (s : TransparencyLogService)
    → open_db db ≡ ok tt
    → db.accepts log ≡ true
    → is_plain log.id ≡ true
    → IsKeyed s.table
    → (s' : TransparencyLogService) × (kept : TransparencyLog) × (write_if_not_exists db log s
        ≡ (ok tt, s'))
      × (find_transparency_log db log.id s'.table ≡ ok kept)
      × (((has_id log.id s.table ≡ false) × (kept ≡ log) × (s'.table ≡ s.table ++ log ∷ []))
          ⊎ ((find_transparency_log db log.id s.table ≡ ok kept) × (s' ≡ s)))
      × (write_if_not_exists db log s' ≡ (ok tt, s'))
unfolding write_if_not_exists
write_if_not_exists_idempotent db log s o a plain keyed =
    elim (Bool-cases (has_id log.id s.table)) [
      | inl taken ↦
          let (kept, _, e) = rows_with_id-present log.id s.table taken in
          let found : find_transparency_log db log.id s.table ≡ ok kept =
            ground (arith, find_transparency_log_lem db log.id s.table o plain keyed, e) in
          (s, kept, ground (arith, found), found, inr (found, refl), ground (arith, found))
      | inr new ↦
          let (s', written, found, appended, _) =
            write-find_transparency_log db log s o a plain keyed new in
          (
            s',
            log,
            ground (
              arith,
              find_transparency_log_lem db log.id s.table o plain keyed,
              rows_with_id-absent log.id s.table new,
              written,
            ),
            found,
            inl (new, refl, appended),
            ground (arith, found),
          )
    ]
