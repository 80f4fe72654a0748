-- ===== src/TransparencyLog/Database/Texts.antt =====
-- Comparing texts, texts that can be spliced into a query, and rows that a query keeps.
use pyrsia.Base.{
  ℕ, zero, suc, ◌≡◌, ◌↔◌, Bool, true, false, not, some, List, [], ◌∷◌, Bytes, arith, get_elem?,
  ◌==◌, ◌&&◌, if◌then◌else◌, Bool-cases, take, ◌++◌, refl, inl, inr,
}

unfoldable pub bytes_eq : Bytes → Bytes → Bool
bytes_eq [] [] = true
bytes_eq (x ∷ xs) (y ∷ ys) = x == y && bytes_eq xs ys
bytes_eq _ _ = false

pub bytes_eq_iff : (a b : Bytes) → (bytes_eq a b ≡ true) ↔ (a ≡ b)
unfolding bytes_eq
bytes_eq_iff [] [] = ground arith
bytes_eq_iff [] (y ∷ ys) = ground arith
bytes_eq_iff (x ∷ xs) [] = ground arith
bytes_eq_iff (x ∷ xs) (y ∷ ys) = ground (arith, bytes_eq_iff xs ys)

-- No quote in the text and no end of a C string
unfoldable pub is_plain : Bytes → Bool
is_plain [] = true
is_plain (x ∷ xs) = not (x == 39) && not (x == 0) && is_plain xs

module _ {ℓ} {A : Type ℓ} where
  unfoldable pub keep : (A → Bool) → List A → List A
  keep test [] = []
  keep test (x ∷ xs) = if test x then x ∷ keep test xs else keep test xs

  abbrev pub IsIn : A → List A → Type ℓ
  IsIn x xs = (i : ℕ) × (get_elem? xs i ≡ some x)

  pub keep-IsIn :
      (test : A → Bool) (x : A) (xs : List A) (i : ℕ)
      → get_elem? (keep test xs) i ≡ some x
      → IsIn x xs × (test x ≡ true)
  unfolding keep
  keep-IsIn test x [] i e = absurd (cc)
  keep-IsIn test x (y ∷ ys) zero e = elim (Bool-cases (test y)) [
    | inr out ↦
        let (deeper, t) = keep-IsIn test x ys 0 (ground arith) in ((suc deeper.0, deeper.1), t)
    | inl kept ↦ ((0, ground arith), ground arith)
  ]
  keep-IsIn test x (y ∷ ys) (suc i) e = elim (Bool-cases (test y)) [
    | inr out ↦
        let (deeper, t) = keep-IsIn test x ys (suc i) (ground arith) in
        ((suc deeper.0, deeper.1), t)
    | inl kept ↦
        let (deeper, t) = keep-IsIn test x ys i (ground arith) in ((suc deeper.0, deeper.1), t)
  ]

  pub IsIn-keep :
      (test : A → Bool) (x : A) (xs : List A) → IsIn x xs → test x ≡ true → IsIn x (keep test xs)
  unfolding keep
  IsIn-keep test x [] (i, e) t = absurd (cc)
  IsIn-keep test x (y ∷ ys) (zero, e) t = elim (Bool-cases (test y)) [
    | inl kept ↦ (0, ground (arith))
    | inr out ↦ absurd (ground (arith))
  ]
  IsIn-keep test x (y ∷ ys) (suc i, e) t =
      let (j, e') = IsIn-keep test x ys (i, e) t in
      elim (Bool-cases (test y)) [
        | inl kept ↦ (suc j, ground (arith))
        | inr out ↦ (j, ground (arith))
      ]

  pub keep-append :
      (test : A → Bool) (xs ys : List A) → keep test (xs ++ ys) ≡ keep test xs ++ keep test ys
  unfolding keep
  keep-append test [] ys = refl
  keep-append test (x ∷ xs) ys = ground (arith, keep-append test xs ys)

  pub take-IsIn : (n : ℕ) (x : A) (xs : List A) → IsIn x (take n xs) → IsIn x xs
  take-IsIn zero x xs (i, e) = absurd (cc)
  take-IsIn (suc n) x [] at = at
  take-IsIn (suc n) x (y ∷ ys) (zero, e) = (0, e)
  take-IsIn (suc n) x (y ∷ ys) (suc i, e) =
      let deeper = take-IsIn n x ys (i, e) in (suc deeper.0, deeper.1)
