-- ===== src/Handlers/Maven.antt =====
-- src/java/maven2/handlers/maven_artifacts.rs: from the path of a request to an artifact.
pub mod Found
pub mod Serving
use pyrsia.Base.{
  ℕ, Option, none, some, List, [], ◌∷◌, ◌++◌, Bytes, length, drop, ltb, if◌then◌else◌,
}
use pyrsia.Outcome.{Outcome, ok, err, ok_or, ◌>>=◌}
use pyrsia.TransparencyLog.Types.{maven2}
use pyrsia.BuildService.Names.{split, slash, colon, dot}

-- `anyhow::Error`
pub data PathError : Type 0 where
  invalid_full_path : PathError

-- `Vec::pop`: the last element and the ones before it
unfoldable pub pop : List Bytes → Option (List Bytes × Bytes)
pop [] = none
pop (x ∷ xs) = elim (pop xs) [ none ↦ some ([], x) | some (ys, last) ↦ some (x ∷ ys, last) ]

-- `join`
unfoldable pub join : ℕ → List Bytes → Bytes
join c [] = []
join c (x ∷ []) = x
join c (x ∷ y ∷ ys) = x ++ c ∷ join c (y ∷ ys)

-- What a path names, in the order of the tuple of the source
pub record Coordinates : Type 0 where
  pub group_id : Bytes
  pub version : Bytes
  pub artifact_id : Bytes
  pub file_name : Bytes

-- `parse_artifact_from_full_path`
unfoldable pub parse_artifact_from_full_path : Bytes → Outcome PathError Coordinates
parse_artifact_from_full_path full_path =
    let pieces = drop 2 (split slash full_path) in
    if ltb (length pieces) 4
    then err invalid_full_path
    else ok_or (pop pieces) invalid_full_path >>= λ p1. ok_or (pop p1.0) invalid_full_path >>= λ p2.
        ok_or (pop p2.0) invalid_full_path >>= λ p3.
        ok (record {
          group_id = join dot p3.0;
          version = p2.1;
          artifact_id = p3.1;
          file_name = p1.1;
        })

-- `get_package_specific_id`
unfoldable pub get_package_specific_id : Bytes → Outcome PathError Bytes
get_package_specific_id full_path = parse_artifact_from_full_path full_path >>= λ c.
    ok (c.group_id ++ (colon ∷ (c.artifact_id ++ (colon ∷ c.version))))

-- `get_package_specific_artifact_id`
unfoldable pub get_package_specific_artifact_id : Bytes → Outcome PathError Bytes
get_package_specific_artifact_id full_path = parse_artifact_from_full_path full_path >>= λ c.
    ok (c.group_id ++ (slash ∷ (c.artifact_id ++ (slash ∷ (c.version ++ (slash ∷ c.file_name))))))
