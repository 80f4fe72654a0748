-- ===== src/Network/Tables.antt =====
-- Hash maps from keys to what is pending under them, and how often a sender is in one.
use pyrsia.Base.{
  ℕ, ◌+◌, ◌≡◌, refl, Bool, true, Option, none, some, List, [], ◌∷◌, arith, ◌==◌, if◌then◌else◌,
  Bool-cases, inl, inr,
}

abbrev pub Table : Type 0 → Type 0 → Type 0
Table K V = List (K × V)

module _ {K V : Type 0} where
  -- `HashMap::insert`: the new map and the value that was there
  unfoldable pub insert : (K → K → Bool) → K → V → Table K V → Table K V × Option V
  insert same k v [] = ((k, v) ∷ [], none)
  insert same k v ((j, w) ∷ rest) =
      if same j k
      then ((k, v) ∷ rest, some w)
      else (let (rest', old) = insert same k v rest in ((j, w) ∷ rest', old))

  -- `HashMap::remove`
  unfoldable pub remove : (K → K → Bool) → K → Table K V → Table K V × Option V
  remove same k [] = ([], none)
  remove same k ((j, w) ∷ rest) =
      if same j k
      then (rest, some w)
      else (let (rest', old) = remove same k rest in ((j, w) ∷ rest', old))

  -- `HashMap::get`
  unfoldable pub get : (K → K → Bool) → K → Table K V → Option V
  get same k [] = none
  get same k ((j, w) ∷ rest) = if same j k then some w else get same k rest

abbrev pub one : ℕ → ℕ → ℕ
one x y = if y == x then 1 else 0

-- How often the sender `x` is among these
abbrev pub count : ℕ → List ℕ → ℕ
count x [] = 0
count x (y ∷ ys) = one x y + count x ys

module _ {K V : Type 0} (same : K → K → Bool) (of : V → ℕ) where
  unfoldable pub count_in : ℕ → Table K V → ℕ
  count_in x [] = 0
  count_in x ((_, v) ∷ rest) = one x (of v) + count_in x rest

  abbrev pub count_option : ℕ → Option V → ℕ
  count_option x none = 0
  count_option x (some v) = one x (of v)

  pub count_in-insert :
      (x : ℕ) (k : K) (v : V) (t : Table K V)
      → count_in x (insert same k v t).0 + count_option x (insert same k v t).1
        ≡ count_in x t + one x (of v)
  unfolding count_in insert
  count_in-insert x k v [] = ground arith
  count_in-insert x k v ((j, w) ∷ rest) = ground (arith, count_in-insert x k v rest)

  pub count_in-remove :
      (x : ℕ) (k : K) (t : Table K V)
      → count_in x (remove same k t).0 + count_option x (remove same k t).1 ≡ count_in x t
  unfolding count_in remove
  count_in-remove x k [] = ground arith
  count_in-remove x k ((j, w) ∷ rest) = ground (arith, count_in-remove x k rest)

  pub insert-get : (k : K) (v : V) (t : Table K V) → (insert same k v t).1 ≡ get same k t
  unfolding insert get
  insert-get k v [] = refl
  insert-get k v ((j, w) ∷ rest) = ground (arith, insert-get k v rest)

module _ {K V : Type 0} (same : K → K → Bool) (k : K) (k_same : same k k ≡ true) where
  pub get-insert : (v : V) (t : Table K V) → get same k (insert same k v t).0 ≡ some v
  unfolding get insert
  get-insert v [] = ground (arith, k_same)
  get-insert v ((j, w) ∷ rest) = ground (arith, k_same, get-insert v rest)

  pub remove-insert :
      (v : V) (t : Table K V)
      → get same k t ≡ none
      → remove same k (insert same k v t).0 ≡ (t, some v)
  unfolding get insert remove
  remove-insert v [] h = ground (arith, k_same)
  remove-insert v ((j, w) ∷ rest) h = elim (Bool-cases (same j k)) [
    | inl here ↦ absurd (ground (arith, here, h))
    | inr there ↦ ground (arith, there, remove-insert v rest (ground (arith, h, there)))
  ]

  pub insert-insert :
      (v v' : V) (t : Table K V)
      → (insert same k v' (insert same k v t).0).0 ≡ (insert same k v' t).0
  unfolding insert
  insert-insert v v' [] = ground (arith, k_same)
  insert-insert v v' ((j, w) ∷ rest) = ground (arith, k_same, insert-insert v v' rest)
