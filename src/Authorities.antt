-- ===== src/Authorities.antt =====
-- src/blockchain/src/identities/authority_verifier.rs: who may sign, and when enough have signed.
pub mod Counting
pub mod Quorum
use pyrsia.Base.{
  ℕ, ◌+◌, ◌*◌, ◌/◌, Bool, true, false, Option, none, some, List, [], ◌∷◌, Bytes, length, ltb, ◌==◌,
  ◌&&◌, if◌then◌else◌,
}

-- The keys of the hash map are the indices of the nodes, each once.
pub record AuthorityVerifier : Type 0 where
  pub authorities : List (ℕ × Bytes)

-- What aleph_bft's `MultiSignature` iterates over: indices with their signatures
abbrev pub MultiSignature : Type 0
MultiSignature = List (ℕ × Bytes)

-- `AuthorityVerifier::new`
unfoldable pub new : AuthorityVerifier
new = record { authorities = [] }

-- `HashMap::insert` and `HashMap::get`
unfoldable pub insert : ℕ → Bytes → List (ℕ × Bytes) → List (ℕ × Bytes)
insert i key [] = (i, key) ∷ []
insert i key ((j, old) ∷ entries) =
    if j == i then (i, key) ∷ entries else (j, old) ∷ insert i key entries

unfoldable pub get : ℕ → List (ℕ × Bytes) → Option Bytes
get i [] = none
get i ((j, key) ∷ entries) = if j == i then some key else get i entries

-- `AuthorityVerifier::save`
unfoldable pub save : ℕ → Bytes → AuthorityVerifier → AuthorityVerifier
unfolding insert
save node_ix public_key v = record { authorities = insert node_ix public_key v.authorities }

-- `AuthorityVerifier::verify`; `check key msg sgn` is ed25519's.
unfoldable pub verify :
    (Bytes → Bytes → Bytes → Bool) → AuthorityVerifier → Bytes → Bytes → ℕ → Bool
unfolding get
verify check v msg sgn index = elim (get index v.authorities) [
  | some public_key ↦ check public_key msg sgn
  | none ↦ false
]

unfoldable pub node_count : AuthorityVerifier → ℕ
node_count v = length v.authorities

-- `AuthorityVerifier::threshold`
unfoldable pub threshold : AuthorityVerifier → ℕ
unfolding node_count
threshold v = 2 * node_count v / 3 + 1

-- `all` in `is_complete`
unfoldable pub all_verify :
    (Bytes → Bytes → Bytes → Bool) → AuthorityVerifier → Bytes → MultiSignature → Bool
unfolding verify
all_verify check v msg [] = true
all_verify check v msg ((i, sgn) ∷ rest) = verify check v msg sgn i && all_verify check v msg rest

-- `AuthorityVerifier::is_complete`
unfoldable pub is_complete :
    (Bytes → Bytes → Bytes → Bool) → AuthorityVerifier → Bytes → MultiSignature → Bool
unfolding threshold all_verify
is_complete check v msg partial =
    if ltb (length partial) (threshold v) then false else all_verify check v msg partial
