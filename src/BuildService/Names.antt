-- ===== src/BuildService/Names.antt =====
-- The texts that src/build_service/service.rs takes apart: package names and artifact addresses.
use pyrsia.Base.{
  ℕ, suc, ◌+◌, ◌-◌, Bool, false, Option, none, some, List, [], ◌∷◌, ◌++◌, Bytes, length, take, drop,
  leb, ◌==◌, ◌&&◌, ◌||◌, if◌then◌else◌, codes,
}
use pyrsia.TransparencyLog.Types.{PackageType, docker, maven2}
use pyrsia.TransparencyLog.Database.{bytes_eq}

abbrev pub slash : ℕ
slash = b'/'

abbrev pub colon : ℕ
colon = b':'

abbrev pub at_sign : ℕ
at_sign = b'@'

abbrev pub dot : ℕ
dot = b'.'

-- `str::rfind`, for a character of one byte
unfoldable pub rfind : ℕ → Bytes → Option ℕ
rfind c [] = none
rfind c (x ∷ xs) = elim (rfind c xs) [
  | some i ↦ some (suc i)
  | none ↦ if x == c then some 0 else none
]

-- `str::contains`
unfoldable pub contains : ℕ → Bytes → Bool
contains c [] = false
contains c (x ∷ xs) = x == c || contains c xs

-- `str::ends_with`
unfoldable pub ends_with : Bytes → Bytes → Bool
ends_with suffix text =
    leb (length suffix) (length text) && bytes_eq (drop (length text - length suffix) text) suffix

-- `str::replace`, a character for a character
unfoldable pub replace : ℕ → ℕ → Bytes → Bytes
replace a b [] = []
replace a b (x ∷ xs) = (if x == a then b else x) ∷ replace a b xs

-- `str::split`
unfoldable pub split : ℕ → Bytes → List Bytes
split c [] = [] ∷ []
split c (x ∷ xs) =
    let rest = split c xs in
    if x == c
    then [] ∷ rest
    else (elim rest [ [] ↦ (x ∷ []) ∷ [] | piece ∷ pieces ↦ (x ∷ piece) ∷ pieces ])

-- `get_docker_image_name`
unfoldable pub get_docker_image_name : Bytes → Bytes
unfolding rfind
get_docker_image_name package_specific_id = elim (rfind at_sign package_specific_id) [
  | some position_at ↦ take position_at package_specific_id
  | none ↦ elim (rfind colon package_specific_id) [
    | some position_colon ↦ take position_colon package_specific_id
    | none ↦ package_specific_id
  ]
]

-- What stands after the last slash of an address
unfoldable pub artifact_filename : Bytes → Bytes
unfolding rfind
artifact_filename artifact_url = elim (rfind slash artifact_url) [
  | some position ↦ drop (position + 1) artifact_url
  | none ↦ artifact_url
]

-- What stands before the last dot of a file name
unfoldable pub blob_digest : Bytes → Bytes
unfolding rfind
blob_digest filename = elim (rfind dot filename) [
  | some position_dot ↦ take position_dot filename
  | none ↦ filename
]

-- `artifact_specific_ids` in `process_artifact_urls`
unfoldable pub artifact_specific_ids : PackageType → Bytes → Bytes → Bytes → List Bytes
unfolding get_docker_image_name artifact_filename blob_digest ends_with contains replace
artifact_specific_ids docker package_specific_id artifact_url artifact_hash =
    if ends_with (codes "/manifest") artifact_url
    then (if contains at_sign package_specific_id
        then package_specific_id ∷ []
        else package_specific_id
          ∷ (get_docker_image_name package_specific_id ++ (codes "@sha256:" ++ artifact_hash))
          ∷ [])
    else (get_docker_image_name package_specific_id
        ++ (at_sign ∷ blob_digest (artifact_filename artifact_url)))
      ∷ []
artifact_specific_ids maven2 package_specific_id artifact_url artifact_hash =
    (replace colon slash package_specific_id ++ (slash ∷ artifact_filename artifact_url)) ∷ []
