-- ===== src/Tests/Signers.antt =====
-- The theorems on the authorities, at four of them, of whom three sign.
use pyrsia.Base.{ℕ, ◌≡◌, refl, Bool, true, [], ◌∷◌, Bytes}
use pyrsia.TransparencyLog.Database.{bytes_eq}
use pyrsia.Authorities.{AuthorityVerifier, MultiSignature, is_complete}
use pyrsia.Authorities.Quorum.{IsSigner, is_complete_shared}

-- A signature is the key that it was made with.
abbrev check : Bytes → Bytes → Bytes → Bool
check key msg sgn = bytes_eq key sgn

abbrev verifier : AuthorityVerifier
verifier = record { authorities = (0, 10 ∷ []) ∷ (1, 11 ∷ []) ∷ (2, 12 ∷ []) ∷ (3, 13 ∷ []) ∷ [] }

abbrev left : MultiSignature
left = (0, 10 ∷ []) ∷ (1, 11 ∷ []) ∷ (2, 12 ∷ []) ∷ []

abbrev right : MultiSignature
right = (1, 11 ∷ []) ∷ (2, 12 ∷ []) ∷ (3, 13 ∷ []) ∷ []

left_complete : is_complete check verifier [] left ≡ true
unfolding is_complete bytes_eq
left_complete = refl

right_complete : is_complete check verifier (1 ∷ []) right ≡ true
unfolding is_complete bytes_eq
right_complete = refl

is_complete_shared_example :
    (i : ℕ) × IsSigner check verifier [] left i × IsSigner check verifier (1 ∷ []) right i
is_complete_shared_example =
    is_complete_shared check verifier [] (1 ∷ []) left right (refl, (refl, (refl, tt)))
      (refl, (refl, (refl, tt))) left_complete right_complete
