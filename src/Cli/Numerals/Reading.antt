-- ===== src/Cli/Numerals/Reading.antt =====
-- What `parse_u16` accepts, and what it returns.
use pyrsia.Base.{
  ℕ, ◌+◌, ◌-◌, ◌*◌, ◌^◌, ◌≤◌, ◌<◌, ◌≡◌, ◌≢◌, refl, ◌⊎◌, inl, inr, some, [], ◌∷◌, Bytes, ◌==◌, arith,
  Bool-cases, ap, ◌∙◌,
}
use pyrsia.Cli.Numerals.{plus, scan, parse_u16}

abbrev pub AllDigits : Bytes → Type 0
AllDigits [] = Unit
AllDigits (c ∷ s) = (b'0' ≤ c) × (c ≤ b'9') × AllDigits s

-- Digits behind those of `so_far` spell `total`, which has no bound here.
abbrev pub Spells : Bytes → ℕ → ℕ → Type 0
Spells [] so_far total = so_far ≡ total
Spells (c ∷ s) so_far total = (b'0' ≤ c) × (c ≤ b'9') × Spells s (so_far * 10 + (c - b'0')) total

Spells-le : (s : Bytes) (so_far total : ℕ) → Spells s so_far total → so_far ≤ total
Spells-le [] so_far total same = omega arith
Spells-le (c ∷ s) so_far total (low, high, behind) =
    let step = Spells-le s (so_far * 10 + (c - b'0')) total behind in omega arith

scan-Spells :
    (s : Bytes) (so_far total : ℕ)
    → scan s so_far ≡ some total
    → so_far < 2 ^ 16
    → (total < 2 ^ 16) × Spells s so_far total
unfolding scan
scan-Spells [] so_far total answer small = ground arith
scan-Spells (c ∷ s) so_far total answer small =
    ground (arith, scan-Spells s (so_far * 10 + (c - b'0')) total)

Spells-scan :
    (s : Bytes) (so_far total : ℕ)
    → Spells s so_far total
    → total < 2 ^ 16
    → scan s so_far ≡ some total
unfolding scan
Spells-scan [] so_far total same small = ap (λ k. some k) same
Spells-scan (c ∷ s) so_far total (low, high, behind) small =
    let longer = so_far * 10 + (c - b'0') in
    let below = Spells-le s longer total behind in
    let rest = Spells-scan s longer total behind small in ground arith

-- A numeral of `n`: one digit or more, which may have a `+` before them.
abbrev pub IsNumeralOf : ℕ → Bytes → Type 0
IsNumeralOf n s = (c : ℕ) × (t : Bytes) × Spells (c ∷ t) 0 n × ((s ≡ c ∷ t) ⊎ (s ≡ plus ∷ c ∷ t))

pub parse_u16-IsNumeralOf :
    (s : Bytes) (n : ℕ) → parse_u16 s ≡ some n → IsNumeralOf n s × (n < 2 ^ 16)
unfolding parse_u16
parse_u16-IsNumeralOf [] n h = absurd (ground arith)
parse_u16-IsNumeralOf (c ∷ []) n h =
    let (small, digits) = scan-Spells (c ∷ []) 0 n h (omega arith) in
    ((c, [], digits, inl refl), small)
parse_u16-IsNumeralOf (c ∷ d ∷ s) n h = elim (Bool-cases (c == plus)) [
  | inl e ↦
      let (small, digits) = scan-Spells (d ∷ s) 0 n (ground arith) (omega arith) in
      ((d, s, digits, inr (ground arith)), small)
  | inr e ↦
      let (small, digits) = scan-Spells (c ∷ d ∷ s) 0 n (ground arith) (omega arith) in
      ((c, d ∷ s, digits, inl refl), small)
]

pub unsigned : (c : ℕ) (t : Bytes) → c ≢ plus → parse_u16 (c ∷ t) ≡ scan (c ∷ t) 0
unfolding parse_u16
unsigned c [] other = refl
unsigned c (d ∷ t) other = ground arith

signed : (d : ℕ) (t : Bytes) → parse_u16 (plus ∷ d ∷ t) ≡ scan (d ∷ t) 0
unfolding parse_u16
signed d t = refl

pub IsNumeralOf-parse_u16 :
    (s : Bytes) (n : ℕ) → IsNumeralOf n s → n < 2 ^ 16 → parse_u16 s ≡ some n
IsNumeralOf-parse_u16 s n (c, t, digits, written) small =
    let value = Spells-scan (c ∷ t) 0 n digits small in
    elim written [
      | inl e ↦ ap parse_u16 e ∙ unsigned c t (omega arith) ∙ value
      | inr e ↦ ap parse_u16 e ∙ signed c t ∙ value
    ]
