-- ===== src/Authorities/Quorum.antt =====
-- What src/blockchain/src/identities/authority_verifier.rs guarantees: any two complete sets of
-- signatures share a signer, and what `save` does to the keys.
use pyrsia.Base.{
  ℕ, suc, ◌*◌, ◌<◌, ◌≡◌, refl, ap, ◌∙◌, Bool, true, false, some, List, [], ◌∷◌, Bytes, arith,
  length, ◌==◌, inl, inr, Bool-cases, Option-cases,
}
use pyrsia.Authorities.{
  AuthorityVerifier, MultiSignature, insert, get, save, verify, node_count, threshold, all_verify,
  is_complete,
}
use pyrsia.Authorities.Counting.{member, IsDistinct, shared}

abbrev pub indices : List (ℕ × Bytes) → List ℕ
indices [] = []
indices ((i, _) ∷ entries) = i ∷ indices entries

length-indices : (entries : List (ℕ × Bytes)) → length (indices entries) ≡ length entries
length-indices [] = refl
length-indices ((i, _) ∷ entries) = ap suc (length-indices entries)

get-member :
    (i : ℕ) (key : Bytes) (entries : List (ℕ × Bytes))
    → get i entries ≡ some key
    → member i (indices entries) ≡ true
unfolding get
get-member i key [] e = absurd (cc)
get-member i key ((j, k) ∷ entries) e = elim (Bool-cases (j == i)) [
  | inl same ↦ ground (arith, same)
  | inr other ↦ ground (arith, other, get-member i key entries (ground (arith, e, other)))
]

module _ (check : Bytes → Bytes → Bytes → Bool) (v : AuthorityVerifier) (msg : Bytes) where
  -- The index has a key, and a signature among these that the key checks.
  abbrev pub IsSigner : MultiSignature → ℕ → Type 0
  IsSigner partial i =
      (key : Bytes) × (sgn : Bytes) × (get i v.authorities ≡ some key)
      × (get i partial ≡ some sgn)
      × (check key msg sgn ≡ true)

  verify-IsSigner :
      (i : ℕ) (sgn : Bytes)
      → verify check v msg sgn i ≡ true
      → (key : Bytes) × (get i v.authorities ≡ some key) × (check key msg sgn ≡ true)
  unfolding verify
  verify-IsSigner i sgn h = elim (Option-cases (get i v.authorities)) [
    | inl nothing ↦ absurd (ground (arith, nothing, h))
    | inr (key, at) ↦ (key, at, ground (arith, at, h))
  ]

  all_verify-IsSigner :
      (partial : MultiSignature) (i : ℕ)
      → all_verify check v msg partial ≡ true
      → member i (indices partial) ≡ true
      → IsSigner partial i
  unfolding all_verify get
  all_verify-IsSigner [] i h m = absurd (cc)
  all_verify-IsSigner ((j, sgn) ∷ rest) i h m = elim (Bool-cases (j == i)) [
    | inl same ↦
        let (key, at, good) = verify-IsSigner j sgn (ground (arith, h)) in
        let e : i ≡ j = ground (arith, same) in
        (key, sgn, ap (λ k. get k v.authorities) e ∙ at, ground (arith, same), good)
    | inr other ↦
        let (key, sgn', at, here, good) =
          all_verify-IsSigner rest i (ground (arith, h)) (ground (arith, m, other)) in
        (key, sgn', at, ground (arith, other, here), good)
  ]

  is_complete-IsSigner :
      (partial : MultiSignature)
      → is_complete check v msg partial ≡ true
      → (2 * length v.authorities < 3 * length partial)
        × ((i : ℕ) → member i (indices partial) ≡ true → IsSigner partial i)
  unfolding is_complete threshold node_count
  is_complete-IsSigner partial h =
      (ground (arith, h), λ i m. all_verify-IsSigner partial i (ground (arith, h)) m)

-- Two sets of signatures, each with at most one per index, that are both complete, on whatever
-- messages, have a signer in common: an authority whose key checks a signature of each.
pub is_complete_shared :
    (check : Bytes → Bytes → Bytes → Bool) (v : AuthorityVerifier) (msg msg' : Bytes)
    (partial partial' : MultiSignature)
    → IsDistinct (indices partial)
    → IsDistinct (indices partial')
    → is_complete check v msg partial ≡ true
    → is_complete check v msg' partial' ≡ true
    → (i : ℕ) × IsSigner check v msg partial i × IsSigner check v msg' partial' i
is_complete_shared check v msg msg' partial partial' d d' c c' =
    let (many, signer) = is_complete-IsSigner check v msg partial c in
    let (many', signer') = is_complete-IsSigner check v msg' partial' c' in
    let n = length-indices v.authorities in
    let (i, here, there) =
      shared (indices partial) (indices partial') (indices v.authorities) d d'
        (λ y m. let (key, _, at, _, _) = signer y m in get-member y key v.authorities at)
        (λ y m. let (key, _, at, _, _) = signer' y m in get-member y key v.authorities at)
        (omega (arith, many, many', n, length-indices partial, length-indices partial')) in
    (i, signer i here, signer' i there)

get-insert :
    (i : ℕ) (key : Bytes) (entries : List (ℕ × Bytes))
    → (get i (insert i key entries) ≡ some key)
      × ((j : ℕ) → (i == j) ≡ false → get j (insert i key entries) ≡ get j entries)
unfolding get insert
get-insert i key [] = (ground arith, λ j apart. ground (arith, apart))
get-insert i key ((k, old) ∷ entries) =
    let (new, others) = get-insert i key entries in
    elim (Bool-cases (k == i)) [
      | inl same ↦ (ground (arith, same), λ j apart. ground (arith, same, apart))
      | inr other ↦ (ground (arith, other, new), λ j apart. ground (arith, other, others j apart))
    ]

-- After an index is saved with a key, what it signs is checked under that key, whether it had one
-- before or not; the signatures of every other index are checked as before.
pub save-verify :
    (check : Bytes → Bytes → Bytes → Bool) (v : AuthorityVerifier) (i : ℕ) (key msg sgn : Bytes)
    → (verify check (save i key v) msg sgn i ≡ check key msg sgn)
      × ((j : ℕ)
          → (i == j) ≡ false
          → verify check (save i key v) msg sgn j ≡ verify check v msg sgn j)
unfolding verify save
save-verify check v i key msg sgn =
    let (new, others) = get-insert i key v.authorities in
    (ground (arith, new), λ j apart. ground (arith, others j apart))
