-- ===== src/TransparencyLog/Reading/Oldest.antt =====
-- Which row `get_artifact` of src/transparency_log/log.rs answers with.
use pyrsia.Base.{
  zero, suc, ◌≤◌, ◌≡◌, refl, ap, sym, subst, true, List, [], ◌∷◌, Bytes, arith, leb, ◌∙◌, ◌⊎◌, inl,
  inr, Bool-cases,
}
use pyrsia.Outcome.{Outcome, ok, err, panicked}
use pyrsia.TransparencyLog.Types.{
  TransparencyLog, TransparencyLogError, PackageType, Operation, add_artifact, add_node,
  remove_node, remove_artifact, artifact_not_found, invalid_operation, is_artifact_operation,
}
use pyrsia.TransparencyLog.Database.{
  open_db, Database, Table, process_query, is_plain, keep, IsIn, keep-IsIn,
}
use pyrsia.TransparencyLog.Reading.{
  insert, sort_by_timestamp, artifact_rows, read_transparency_log, get_artifact,
}

-- A row such that no row is older
abbrev pub IsOldest : TransparencyLog → List TransparencyLog → Type 0
IsOldest x xs = IsIn x xs × ((y : TransparencyLog) → IsIn y xs → x.timestamp ≤ y.timestamp)

oldest_cons :
    (log x : TransparencyLog) (xs : List TransparencyLog)
    → log.timestamp ≤ x.timestamp
    → ((y : TransparencyLog) → IsIn y xs → log.timestamp ≤ y.timestamp)
    → (y : TransparencyLog) → IsIn y (x ∷ xs)
    → log.timestamp ≤ y.timestamp
oldest_cons log x xs h below y (zero, e) = ground (arith, e)
oldest_cons log x xs h below y (suc i, e) = below y (i, e)

sort_by_timestamp-head :
    (x : TransparencyLog) (xs : List TransparencyLog)
    → (log : TransparencyLog) × (rest : List TransparencyLog) × (sort_by_timestamp (x ∷ xs)
        ≡ log ∷ rest)
      × IsOldest log (x ∷ xs)
unfolding sort_by_timestamp insert
sort_by_timestamp-head x [] =
    (x, [], refl, ((0, refl), oldest_cons x x [] (omega arith) (λ y at. absurd (cc))))
sort_by_timestamp-head x (y ∷ ys) =
    let (log, rest, e, ((i, at), below)) = sort_by_timestamp-head y ys in
    elim (Bool-cases (leb x.timestamp log.timestamp)) [
      | inl first ↦ (
        x,
        log ∷ rest,
        ground (arith, e),
        ((0, refl), oldest_cons x x (y ∷ ys) (omega arith) (λ w k. ground (arith, below w k))),
      )
      | inr later ↦ (
        log,
        insert x rest,
        ground (arith, e),
        ((suc i, at), oldest_cons log x (y ∷ ys) (ground arith) below),
      )
    ]

-- The rows of an artifact, of the operations that are about artifacts
abbrev pub artifact_operations : PackageType → Bytes → Table → List TransparencyLog
artifact_operations t said table =
    keep (λ log. is_artifact_operation log.operation) (artifact_rows t said table)

-- What `get_artifact` answers, by what is in the table: the oldest row, or what is wrong.
abbrev pub ArtifactAnswer :
    PackageType → Bytes → Table → Outcome TransparencyLogError TransparencyLog → Type 0
ArtifactAnswer t said table answer = elim answer [
  | ok log ↦ IsOldest log (artifact_operations t said table) × (log.operation ≡ add_artifact)
  | err e ↦
      ((artifact_operations t said table ≡ []) × (e ≡ artifact_not_found t said))
      ⊎ ((log : TransparencyLog) × IsOldest log (artifact_operations t said table)
          × (log.operation ≡ remove_artifact)
          × (e ≡ invalid_operation log.id remove_artifact))
  | panicked ↦ ⊥
]

pub list_cases :
    {A : Type 0} → (xs : List A) → (xs ≡ []) ⊎ ((x : A) × (rest : List A) × (xs ≡ x ∷ rest))
list_cases [] = inl refl
list_cases (x ∷ xs) = inr (x, xs, refl)

pub operation_cases :
    (o : Operation) → is_artifact_operation o ≡ true → (o ≡ add_artifact) ⊎ (o ≡ remove_artifact)
operation_cases add_artifact h = inl refl
operation_cases remove_artifact h = inr refl
operation_cases add_node h = absurd (cc)
operation_cases remove_node h = absurd (cc)

-- In a database that opens, `get_artifact` answers with the oldest row of the artifact, when that
-- row adds the artifact; with an invalid operation when the oldest row removes it; and with
-- "not found" when the artifact has no row. Identifiers with a quote or a zero are left out.
pub get_artifact_oldest :
    (db : Database) (t : PackageType) (said : Bytes) (table : Table)
    → open_db db ≡ ok tt
    → is_plain said ≡ true
    → ArtifactAnswer t said table (get_artifact db t said table)
unfolding get_artifact read_transparency_log process_query
get_artifact_oldest db t said table o plain = elim (list_cases (artifact_operations t said table)) [
  | inl empty ↦
      let e : get_artifact db t said table ≡ err (artifact_not_found t said) =
        ground (arith, empty) in
      subst (ArtifactAnswer t said table) (sym e) (inl (empty, refl))
  | inr (first, others, shape) ↦
      let (log, rest, sorted, oldest') = sort_by_timestamp-head first others in
      let oldest : IsOldest log (artifact_operations t said table) =
        subst (IsOldest log) (sym shape) oldest' in
      let (_, artifact) =
        keep-IsIn (λ (r : TransparencyLog). is_artifact_operation r.operation) log
          (artifact_rows t said table) oldest.0.0 oldest.0.1 in
      let sorted' : sort_by_timestamp (artifact_operations t said table) ≡ log ∷ rest =
        ap sort_by_timestamp shape ∙ sorted in
      elim (operation_cases log.operation artifact) [
        | inl adds ↦
            let e : get_artifact db t said table ≡ ok log = ground (arith, sorted', adds) in
            subst (ArtifactAnswer t said table) (sym e) (oldest, adds)
        | inr removes ↦
            let e : get_artifact db t said table ≡ err (invalid_operation log.id remove_artifact) =
              ground (arith, sorted', removes) in
            subst (ArtifactAnswer t said table) (sym e) (inr (log, oldest, removes, refl))
      ]
]
