-- ===== src/Authorities/Counting.antt =====
-- Two lists of different members of a third one that are longer together than it share a member.
use pyrsia.Base.{
  ℕ, suc, ◌+◌, ◌<◌, ◌≤◌, ◌≡◌, ap, Bool, true, false, List, [], ◌∷◌, arith, length, ◌==◌, inl, inr,
  Bool-cases, if◌then◌else◌,
}

abbrev pub member : ℕ → List ℕ → Bool
member x [] = false
member x (y ∷ ys) = if y == x then true else member x ys

abbrev remove : ℕ → List ℕ → List ℕ
remove x [] = []
remove x (y ∷ ys) = if y == x then ys else y ∷ remove x ys

abbrev pub IsDistinct : List ℕ → Type 0
IsDistinct [] = Unit {0}
IsDistinct (x ∷ xs) = (member x xs ≡ false) × IsDistinct xs

abbrev pub IsWithin : List ℕ → List ℕ → Type 0
IsWithin xs zs = (y : ℕ) → member y xs ≡ true → member y zs ≡ true

length-remove : (x : ℕ) (zs : List ℕ) → member x zs ≡ true → length zs ≡ suc (length (remove x zs))
length-remove x [] h = absurd (cc)
length-remove x (z ∷ zs) h = elim (Bool-cases (z == x)) [
  | inl same ↦ ground (arith, same)
  | inr other ↦ ground (arith, other, length-remove x zs (ground (arith, other)))
]

member-remove :
    (x y : ℕ) (zs : List ℕ) → member y zs ≡ true → (y == x) ≡ false → member y (remove x zs) ≡ true
member-remove x y [] h apart = absurd (cc)
member-remove x y (z ∷ zs) h apart = elim (Bool-cases (z == y)) [
  | inl same ↦ ground (arith, same)
  | inr other ↦ ground (arith, other, member-remove x y zs (ground (arith, other)) apart)
]

-- A list without `x` whose members are in `zs` has them in `zs` without `x`.
remove-IsWithin :
    (x : ℕ) (ys zs : List ℕ) → member x ys ≡ false → IsWithin ys zs → IsWithin ys (remove x zs)
remove-IsWithin x ys zs absent within y h =
    member-remove x y zs (within y h) (elim (Bool-cases (y == x)) [
      | inl same ↦
          let e : y ≡ x = ground (arith, same) in
          absurd (ground (arith, ap (λ k. member k ys) e, absent, h))
      | inr other ↦ other
    ])

IsWithin-length : (ys zs : List ℕ) → IsDistinct ys → IsWithin ys zs → length ys ≤ length zs
IsWithin-length [] zs d w = omega arith
IsWithin-length (y ∷ ys) zs d w =
    let rest : IsWithin ys zs = λ x h. w x (ground (arith, h)) in
    let deeper = IsWithin-length ys (remove y zs) d.1 (remove-IsWithin y ys zs d.0 rest) in
    ground (arith, deeper, length-remove y zs (w y (ground arith)))

-- Pigeonholes
pub shared :
    (xs ys zs : List ℕ)
    → IsDistinct xs
    → IsDistinct ys
    → IsWithin xs zs
    → IsWithin ys zs
    → length zs < length xs + length ys
    → (i : ℕ) × (member i xs ≡ true) × (member i ys ≡ true)
shared [] ys zs d e w v long = absurd (omega (arith, IsWithin-length ys zs e v))
shared (x ∷ xs) ys zs d e w v long = elim (Bool-cases (member x ys)) [
  | inl both ↦ (x, ground arith, both)
  | inr alone ↦
      let rest : IsWithin xs zs = λ y h. w y (ground (arith, h)) in
      let (i, here, there) =
        shared xs ys (remove x zs) d.1 e (remove-IsWithin x xs zs d.0 rest)
          (remove-IsWithin x ys zs alone v)
          (ground (arith, length-remove x zs (w x (ground arith)))) in
      (i, ground (arith, here), there)
]
