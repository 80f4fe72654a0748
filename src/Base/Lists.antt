-- ===== src/Base/Lists.antt =====
-- Lists measured and indexed by native numbers, under the library's names.
use Prim.Native.Nat.{ℕ, zero, suc, ◌+◌, ◌-◌, ◌<◌, min}
use mathlib.Core.Path.{◌≡◌, refl, ap}
use mathlib.Core.List.{List, [], ◌∷◌, ◌++◌}
use mathlib.Core.Option.{Option, none, some}
use native.Mathlib.Omega.{arith}

module _ {ℓ} {A : Type ℓ} where
  abbrev pub length : List A → ℕ
  length [] = 0
  length (x ∷ xs) = suc (length xs)

  abbrev pub get_elem? : List A → ℕ → Option A
  get_elem? [] i = none
  get_elem? (x ∷ xs) zero = some x
  get_elem? (x ∷ xs) (suc i) = get_elem? xs i

  abbrev pub get_last? : List A → Option A
  get_last? [] = none
  get_last? (x ∷ []) = some x
  get_last? (x ∷ y ∷ xs) = get_last? (y ∷ xs)

  abbrev pub take : ℕ → List A → List A
  take zero xs = []
  take (suc n) [] = []
  take (suc n) (x ∷ xs) = x ∷ take n xs

  abbrev pub drop : ℕ → List A → List A
  drop zero xs = xs
  drop (suc n) [] = []
  drop (suc n) (x ∷ xs) = drop n xs

  pub length-zero : (xs : List A) → length xs ≡ 0 → xs ≡ []
  length-zero [] h = refl
  length-zero (x ∷ xs) h = absurd (omega arith)

  pub length-append : (xs ys : List A) → length (xs ++ ys) ≡ length xs + length ys
  length-append [] ys = omega arith
  length-append (x ∷ xs) ys = omega (arith, length-append xs ys)

  pub get_last?-append : (xs : List A) (x : A) → get_last? (xs ++ x ∷ []) ≡ some x
  get_last?-append [] x = refl
  get_last?-append (y ∷ []) x = refl
  get_last?-append (y ∷ z ∷ xs) x = get_last?-append (z ∷ xs) x

  pub length-take : (n : ℕ) (xs : List A) → length (take n xs) ≡ min n (length xs)
  length-take zero xs = omega arith
  length-take (suc n) [] = omega arith
  length-take (suc n) (x ∷ xs) = omega (arith, length-take n xs)

  pub length-drop : (n : ℕ) (xs : List A) → length (drop n xs) ≡ length xs - n
  length-drop zero xs = omega arith
  length-drop (suc n) [] = omega arith
  length-drop (suc n) (x ∷ xs) = omega (arith, length-drop n xs)

  pub get_elem?-append_left :
      (xs ys : List A) (i : ℕ) → i < length xs → get_elem? (xs ++ ys) i ≡ get_elem? xs i
  get_elem?-append_left [] ys i h = elim h [ ]
  get_elem?-append_left (x ∷ xs) ys zero h = refl
  get_elem?-append_left (x ∷ xs) ys (suc i) h = get_elem?-append_left xs ys i (omega arith)

  pub get_elem?-append_end : (xs : List A) (x : A) → get_elem? (xs ++ x ∷ []) (length xs) ≡ some x
  get_elem?-append_end [] x = refl
  get_elem?-append_end (y ∷ xs) x = get_elem?-append_end xs x

  -- An index below the length is answered.
  pub get_elem?-lt : (xs : List A) (i : ℕ) → i < length xs → (x : A) × (get_elem? xs i ≡ some x)
  get_elem?-lt [] i h = elim h [ ]
  get_elem?-lt (x ∷ xs) zero h = (x, refl)
  get_elem?-lt (x ∷ xs) (suc i) h = get_elem?-lt xs i (omega arith)

  -- The last element is the one at the last index.
  pub get_last?-get_elem? :
      (xs : List A) (n : ℕ) → length xs ≡ suc n → get_last? xs ≡ get_elem? xs n
  get_last?-get_elem? [] n h = absurd (omega arith)
  get_last?-get_elem? (x ∷ []) zero h = refl
  get_last?-get_elem? (x ∷ []) (suc n) h = absurd (omega arith)
  get_last?-get_elem? (x ∷ y ∷ xs) zero h = absurd (omega arith)
  get_last?-get_elem? (x ∷ y ∷ xs) (suc n) h = get_last?-get_elem? (y ∷ xs) n (omega arith)

  pub get_last?-lt : (xs : List A) (i : ℕ) → i < length xs → (x : A) × (get_last? xs ≡ some x)
  get_last?-lt [] i h = elim h [ ]
  get_last?-lt (x ∷ []) i h = (x, refl)
  get_last?-lt (x ∷ y ∷ xs) i h = get_last?-lt (y ∷ xs) 0 (omega arith)

  pub take_all : (xs : List A) → take (length xs) xs ≡ xs
  take_all [] = refl
  take_all (x ∷ xs) = ap (◌∷◌ x) (take_all xs)

  pub take-append_length : (xs ys : List A) → take (length xs) (xs ++ ys) ≡ xs
  take-append_length [] ys = refl
  take-append_length (x ∷ xs) ys = ap (◌∷◌ x) (take-append_length xs ys)

  pub drop-append_length : (xs ys : List A) → drop (length xs) (xs ++ ys) ≡ ys
  drop-append_length [] ys = refl
  drop-append_length (x ∷ xs) ys = drop-append_length xs ys
