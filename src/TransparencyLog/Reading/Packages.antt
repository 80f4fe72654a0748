-- ===== src/TransparencyLog/Reading/Packages.antt =====
-- What `read_last_transparency_log` and `verify_package_can_be_added_to_transparency_logs` of
-- src/transparency_log/log.rs say about a package.
use pyrsia.Base.{
  ℕ, suc, ◌-◌, ◌^◌, ◌<◌, ◌≡◌, ◌≤◌, ap, ◌∙◌, refl, sym, subst, true, not, List, [], ◌∷◌, ◌++◌, Bytes,
  arith, ltb, length, take, ◌==◌, ◌&&◌, ◌⊎◌, inl, inr, Bool-cases, if◌then◌else◌, length-take,
}
use Prim.Native.Nat.{min}
use mathlib.Core.List.{append-nil, append_assoc}
use pyrsia.Outcome.{Outcome, ok, err, panicked}
use pyrsia.TransparencyLog.Types.{
  TransparencyLog, TransparencyLogError, PackageType, Operation, add_artifact, remove_artifact,
  add_node, remove_node, artifact_already_exists, artifact_log_is_not_consistent_state,
  is_artifact_operation, same_operation, has_type,
}
use pyrsia.TransparencyLog.Database.{
  open_db, Database, DatabaseLaws, Table, process_query, bytes_eq, is_plain, IsIn, keep-IsIn,
  take-IsIn,
}
use pyrsia.TransparencyLog.Reading.{
  package_rows, other_rows, push_added, read_other_artifacts, read_last_transparency_log,
  verify_package_can_be_added,
}
use pyrsia.TransparencyLog.Reading.Oldest.{list_cases, operation_cases}
use pyrsia.TransparencyLog.Reading.Newest.{IsNewest, newest_first-head, newest_first-empty}

same_operation_add : (o : Operation) → same_operation o add_artifact ≡ true → o ≡ add_artifact
same_operation_add add_artifact h = refl
same_operation_add remove_artifact h = absurd (cc)
same_operation_add add_node h = absurd (cc)
same_operation_add remove_node h = absurd (cc)

abbrev AllAdd : List TransparencyLog → Type 0
AllAdd recs = (x : TransparencyLog) → IsIn x recs → x.operation ≡ add_artifact

push_added_lem :
    (t : PackageType) (psi : Bytes) (n : ℕ) (res recs : List TransparencyLog)
    → AllAdd recs
    → push_added t psi n res recs ≡ ok (res ++ recs)
unfolding push_added
push_added_lem t psi n res [] adds = ground (arith, append-nil res)
push_added_lem t psi n res (rec ∷ recs) adds =
    let here = adds rec (0, refl) in
    let deeper = push_added_lem t psi n (res ++ rec ∷ []) recs (λ x at. adds x (suc at.0, at.1)) in
    ground (arith, here, deeper, append_assoc res (rec ∷ []) recs)

module _ (db : Database) (t : PackageType) (psi : Bytes) (table : Table) where
  abbrev others : TransparencyLog → List TransparencyLog
  others log = take (log.num_artifacts - 1) (db.newest_first (other_rows t psi log.id table))

  others-AllAdd : (log : TransparencyLog) → DatabaseLaws db → AllAdd (others log)
  others-AllAdd log laws x at =
      let rows = other_rows t psi log.id table in
      let among = take-IsIn (log.num_artifacts - 1) x (db.newest_first rows) at in
      let here = (laws.keeps rows x).0 among in
      let (_, wanted) =
        keep-IsIn
          (λ (r : TransparencyLog).
            same_operation r.operation add_artifact
            && has_type t r
            && bytes_eq r.package_specific_id psi
            && not (bytes_eq r.id log.id))
          x table here.0 here.1 in
      same_operation_add x.operation (ground (arith, wanted))

  -- The second query and its checks, after a first record that adds several artifacts
  read_other_artifacts_lem :
      (log : TransparencyLog)
      → open_db db ≡ ok tt
      → DatabaseLaws db
      → is_plain psi ≡ true
      → is_plain log.id ≡ true
      → 1 < log.num_artifacts
      → log.num_artifacts < 2 ^ 32
      → (actual : ℕ) × (actual
          ≡ suc (min (log.num_artifacts - 1) (length (other_rows t psi log.id table))))
        × (read_other_artifacts db t psi log (log ∷ []) table ≡ (
            if actual == log.num_artifacts
            then ok (log ∷ others log)
            else err (artifact_log_is_not_consistent_state t psi log.num_artifacts actual)))
  unfolding read_other_artifacts process_query
  read_other_artifacts_lem log o laws plain plain_id several small =
      let pushed =
        push_added_lem t psi log.num_artifacts (log ∷ []) (others log) (others-AllAdd log laws) in
      (
        suc (length (others log)),
        ap (λ n. suc n)
            (length-take (log.num_artifacts - 1) (db.newest_first (other_rows t psi log.id table))
              ∙ ap (min (log.num_artifacts - 1)) (laws.sizes (other_rows t psi log.id table))),
        ground (
          arith,
          pushed,
          length-take (log.num_artifacts - 1) (db.newest_first (other_rows t psi log.id table)),
        ),
      )

-- The identifiers have no quote and no zero, and the numbers of artifacts are of 32 bits.
abbrev pub IsStorable : Table → Type 0
IsStorable table =
    (x : TransparencyLog) → IsIn x table → (is_plain x.id ≡ true) × (x.num_artifacts < 2 ^ 32)

-- What `verify_package_can_be_added_to_transparency_logs` answers, by what is in the table.
abbrev pub PackageAnswer :
    PackageType → Bytes → Table → Outcome TransparencyLogError (Unit {0}) → Type 0
PackageAnswer t psi table answer = elim answer [
  | ok _ ↦
      (package_rows t psi table ≡ [])
      ⊎ ((log : TransparencyLog) × IsNewest log (package_rows t psi table)
          × (log.operation ≡ remove_artifact))
  | err e ↦
      (log : TransparencyLog) × IsNewest log (package_rows t psi table)
      × (log.operation ≡ add_artifact)
      × (((e ≡ artifact_already_exists t psi)
            × (log.num_artifacts ≤ suc (length (other_rows t psi log.id table))))
          ⊎ ((suc (length (other_rows t psi log.id table)) < log.num_artifacts)
              × (e
                  ≡ artifact_log_is_not_consistent_state t psi log.num_artifacts
                      (suc (length (other_rows t psi log.id table))))))
  | panicked ↦ ⊥
]

-- In a database that opens and orders rows as documented, a package is accepted only when it has no
-- row or a newest row of it removes it, and refused only when a newest row adds it. That row and the
-- others that add something of the package are counted: with "already exists" when they are at least
-- as many as the row says, and with "not consistent" and their number when they are fewer. It never
-- panics. Texts with a quote or a zero are left out.
pub verify_package_can_be_added_newest :
    (db : Database) (t : PackageType) (psi : Bytes) (table : Table)
    → open_db db ≡ ok tt
    → DatabaseLaws db
    → is_plain psi ≡ true
    → IsStorable table
    → PackageAnswer t psi table (verify_package_can_be_added db t psi table)
unfolding verify_package_can_be_added read_last_transparency_log process_query
verify_package_can_be_added_newest db t psi table o laws plain storable =
    let rows = package_rows t psi table in
    elim (list_cases (db.newest_first (package_rows t psi table))) [
      | inl empty ↦
          let e : verify_package_can_be_added db t psi table ≡ ok tt = ground (arith, empty) in
          subst (PackageAnswer t psi table) (sym e) (inl (newest_first-empty db rows laws empty))
      | inr (log, rest, shape) ↦
          let newest = newest_first-head db log rest rows laws shape in
          let (stored, wanted) =
            keep-IsIn
              (λ (r : TransparencyLog).
                is_artifact_operation r.operation
                && has_type t r
                && bytes_eq r.package_specific_id psi)
              log table newest.0.0 newest.0.1 in
          elim (operation_cases log.operation (ground (arith, wanted))) [
            | inr removes ↦
                let e : verify_package_can_be_added db t psi table ≡ ok tt =
                  ground (arith, shape, removes) in
                subst (PackageAnswer t psi table) (sym e) (inr (log, newest, removes))
            | inl adds ↦ elim (Bool-cases (ltb 1 log.num_artifacts)) [
              | inr single ↦
                  let e : verify_package_can_be_added db t psi table
                      ≡ err (artifact_already_exists t psi) =
                    ground (arith, shape, adds, single) in
                  subst (PackageAnswer t psi table) (sym e)
                    (log, newest, adds, inl (refl, ground (arith, single)))
              | inl several ↦
                  let (plain_id, small) = storable log stored in
                  let (actual, counted, second) =
                    read_other_artifacts_lem db t psi table log o laws plain plain_id
                      (ground (arith, several)) small in
                  elim (Bool-cases (actual == log.num_artifacts)) [
                    | inl same ↦
                        let e : verify_package_can_be_added db t psi table
                            ≡ err (artifact_already_exists t psi) =
                          ground (arith, shape, adds, several, second, same) in
                        subst (PackageAnswer t psi table) (sym e)
                          (log, newest, adds, inl (refl, ground (arith, counted, same)))
                    | inr apart ↦
                        let e : verify_package_can_be_added db t psi table
                            ≡ err (
                                artifact_log_is_not_consistent_state t psi log.num_artifacts
                                  actual) =
                          ground (arith, shape, adds, several, second, apart) in
                        subst (PackageAnswer t psi table) (sym e) (
                          log,
                          newest,
                          adds,
                          inr (
                            ground (arith, counted, several, apart),
                            ap (artifact_log_is_not_consistent_state t psi log.num_artifacts)
                                (ground (arith, counted, several, apart)),
                          ),
                        )
                  ]
            ]
          ]
    ]
