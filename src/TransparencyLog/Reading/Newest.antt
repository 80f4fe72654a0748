-- ===== src/TransparencyLog/Reading/Newest.antt =====
-- What `verify_node_does_not_exist` and `verify_package_can_be_added_to_transparency_logs` say
-- about the newest rows of the database of src/transparency_log/log.rs.
use pyrsia.Base.{
  zero, suc, ◌≤◌, ◌≡◌, refl, sym, subst, true, List, [], ◌∷◌, Bytes, arith, ◌&&◌, ◌||◌, ◌⊎◌, inl,
  inr,
}
use pyrsia.Outcome.{Outcome, ok, err, panicked}
use pyrsia.TransparencyLog.Types.{
  TransparencyLog, TransparencyLogError, Operation, add_artifact, remove_artifact, add_node,
  remove_node, node_already_exists, same_operation,
}
use pyrsia.TransparencyLog.Database.{
  open_db, Database, DatabaseLaws, Table, bytes_eq, is_plain, IsIn, keep-IsIn, IsNewestFirst,
}
use pyrsia.TransparencyLog.Reading.{node_rows, verify_node_does_not_exist}
use pyrsia.TransparencyLog.Reading.Oldest.{list_cases}

-- A row such that no row is newer
abbrev pub IsNewest : TransparencyLog → List TransparencyLog → Type 0
IsNewest x xs = IsIn x xs × ((y : TransparencyLog) → IsIn y xs → y.timestamp ≤ x.timestamp)

newest_of :
    (log : TransparencyLog) (rest : List TransparencyLog)
    → ((y : TransparencyLog) → IsIn y rest → y.timestamp ≤ log.timestamp)
    → (y : TransparencyLog) → IsIn y (log ∷ rest)
    → y.timestamp ≤ log.timestamp
newest_of log rest below y (zero, e) = ground (arith, e)
newest_of log rest below y (suc i, e) = below y (i, e)

pub newest_first-head :
    (db : Database) (log : TransparencyLog) (rest rows : List TransparencyLog)
    → DatabaseLaws db
    → db.newest_first rows ≡ log ∷ rest
    → IsNewest log rows
newest_first-head db log rest rows laws e =
    let ordered : IsNewestFirst (log ∷ rest) = subst IsNewestFirst e (laws.orders rows) in
    let here : IsIn log (db.newest_first rows) = (0, ground (arith, e)) in
    (
      (laws.keeps rows log).0 here,
      λ y at. newest_of log rest ordered.0 y (subst (IsIn y) e ((laws.keeps rows y).1 at)),
    )

absent_of : {x : TransparencyLog} → IsIn x [] → ⊥
absent_of (i, e) = absurd (cc)

pub newest_first-empty :
    (db : Database) (rows : List TransparencyLog)
    → DatabaseLaws db
    → db.newest_first rows ≡ []
    → rows ≡ []
newest_first-empty db [] laws e = refl
newest_first-empty db (x ∷ xs) laws e =
    absurd (absent_of (subst (IsIn x) e ((laws.keeps (x ∷ xs) x).1 (0, refl))))

abbrev pub NodeAnswer : Bytes → Table → Outcome TransparencyLogError (Unit {0}) → Type 0
NodeAnswer peer_id table answer = elim answer [
  | ok _ ↦
      (node_rows peer_id table ≡ [])
      ⊎ ((log : TransparencyLog) × IsNewest log (node_rows peer_id table)
          × (log.operation ≡ remove_node))
  | err e ↦
      (e ≡ node_already_exists peer_id)
      × ((log : TransparencyLog) × IsNewest log (node_rows peer_id table)
          × (log.operation ≡ add_node))
  | panicked ↦ ⊥
]

node_operation_cases :
    (o : Operation)
    → (same_operation o add_node || same_operation o remove_node) ≡ true
    → (o ≡ add_node) ⊎ (o ≡ remove_node)
node_operation_cases add_artifact h = absurd (cc)
node_operation_cases remove_artifact h = absurd (cc)
node_operation_cases add_node h = inl refl
node_operation_cases remove_node h = inr refl

-- In a database that opens and orders rows as documented, `verify_node_does_not_exist` refuses a
-- peer with "already exists" only when a newest row of it adds it, and accepts it only when it has
-- no row or a newest one removes it. Peers whose text has a quote or a zero are left out.
pub verify_node_does_not_exist_newest :
    (db : Database) (peer_id : Bytes) (table : Table)
    → open_db db ≡ ok tt
    → DatabaseLaws db
    → is_plain peer_id ≡ true
    → NodeAnswer peer_id table (verify_node_does_not_exist db peer_id table)
unfolding verify_node_does_not_exist
verify_node_does_not_exist_newest db peer_id table o laws plain =
    elim (list_cases (db.newest_first (node_rows peer_id table))) [
      | inl empty ↦
          let e : verify_node_does_not_exist db peer_id table ≡ ok tt = ground (arith, empty) in
          subst (NodeAnswer peer_id table) (sym e)
            (inl (newest_first-empty db (node_rows peer_id table) laws empty))
      | inr (log, rest, shape) ↦
          let newest = newest_first-head db log rest (node_rows peer_id table) laws shape in
          let (_, wanted) =
            keep-IsIn
              (λ (r : TransparencyLog).
                (same_operation r.operation add_node || same_operation r.operation remove_node)
                && bytes_eq r.node_id peer_id)
              log table newest.0.0 newest.0.1 in
          elim (node_operation_cases log.operation (ground (arith, wanted))) [
            | inl adds ↦
                let e : verify_node_does_not_exist db peer_id table
                    ≡ err (node_already_exists peer_id) =
                  ground (arith, shape, adds) in
                subst (NodeAnswer peer_id table) (sym e) (refl, (log, newest, adds))
            | inr removes ↦
                let e : verify_node_does_not_exist db peer_id table ≡ ok tt =
                  ground (arith, shape, removes) in
                subst (NodeAnswer peer_id table) (sym e) (inr (log, newest, removes))
          ]
    ]
