-- ===== src/Cli/Numerals.antt =====
-- `str::parse::<u16>` and the decimal print of a u16, of the standard library.
pub mod Reading
pub mod RoundTrip
use pyrsia.Base.{
  ℕ, zero, suc, ◌+◌, ◌-◌, ◌*◌, ◌/◌, ◌%◌, ◌^◌, Option, none, some, [], ◌∷◌, Bytes, ltb, leb, ◌==◌,
  ◌&&◌, if◌then◌else◌,
}

abbrev pub plus : ℕ
plus = b'+'

-- `char::to_digit(10)`
abbrev pub to_digit : ℕ → Option ℕ
to_digit c = if leb b'0' c && leb c b'9' then some (c - b'0') else none

-- The result of a checked operation on u16
abbrev pub checked_u16 : ℕ → Option ℕ
checked_u16 n = if ltb n (2 ^ 16) then some n else none

infixl 5 ◌>>=◌
abbrev ◌>>=◌ : Option ℕ → (ℕ → Option ℕ) → Option ℕ
none >>= f = none
some a >>= f = f a

-- The digits behind those that make `n`, with a checked product and a checked sum each
unfoldable pub scan : Bytes → ℕ → Option ℕ
scan [] n = some n
scan (c ∷ s) n =
    to_digit c >>= λ d. checked_u16 (n * 10) >>= λ m. checked_u16 (m + d) >>= λ k. scan s k

-- `parse::<u16>`, which takes a sign `+` before the digits
unfoldable pub parse_u16 : Bytes → Option ℕ
unfolding scan
parse_u16 [] = none
parse_u16 (c ∷ []) = scan (c ∷ []) 0
parse_u16 (c ∷ d ∷ s) = if c == plus then scan (d ∷ s) 0 else scan (c ∷ d ∷ s) 0

-- The digits of `n` before `out`; a u16 has five at most.
unfoldable pub digits : ℕ → ℕ → Bytes → Bytes
digits zero n out = out
digits (suc fuel) n out =
    let rest = digits fuel (n / 10) ((b'0' + n % 10) ∷ out) in
    if ltb n 10 then (b'0' + n % 10) ∷ out else rest

-- `u16::to_string`
unfoldable pub to_string : ℕ → Bytes
unfolding digits
to_string n = digits 5 n []
