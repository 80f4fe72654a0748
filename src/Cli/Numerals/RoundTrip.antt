-- ===== src/Cli/Numerals/RoundTrip.antt =====
-- A u16 is read back from its print.
use pyrsia.Base.{
  ℕ, zero, suc, ◌+◌, ◌/◌, ◌%◌, ◌^◌, ◌<◌, ◌≡◌, ◌≢◌, refl, some, [], ◌∷◌, Bytes, arith, ltb, if_both,
}
use pyrsia.Cli.Numerals.{scan, parse_u16, digits, to_string}
use pyrsia.Cli.Numerals.Reading.{AllDigits, unsigned}

-- Digits, one at least, in front of which nothing was read yet, and what is read of them
abbrev IsPrint : Bytes → Type 0
IsPrint s = AllDigits s × (s ≢ [])

-- One more digit in front
IsPrint-cons : (n : ℕ) (out : Bytes) → AllDigits out → IsPrint ((b'0' + n % 10) ∷ out)
IsPrint-cons n out rest = ((omega arith, omega arith, rest), ground arith)

digits-IsPrint : (fuel n : ℕ) (out : Bytes) → AllDigits out → IsPrint (digits (suc fuel) n out)
unfolding digits
digits-IsPrint zero n out rest =
    let front = IsPrint-cons n out rest in if_both IsPrint (ltb n 10) front front
digits-IsPrint (suc fuel) n out rest =
    let front = IsPrint-cons n out rest in
    if_both IsPrint (ltb n 10) front (digits-IsPrint fuel (n / 10) ((b'0' + n % 10) ∷ out) front.0)

pub to_string-IsPrint : (n : ℕ) → AllDigits (to_string n) × (to_string n ≢ [])
unfolding to_string
to_string-IsPrint n = digits-IsPrint 4 n [] tt

-- With a digit of fuel for each digit of the number, a reader that comes to `out` has read it.
digits-scan :
    (fuel n : ℕ)
    → n < 10 ^ fuel
    → (out : Bytes) → n < 2 ^ 16
    → scan out n ≡ scan (digits fuel n out) 0
unfolding digits scan
digits-scan zero n few out small = ground arith
digits-scan (suc fuel) n few out small =
    ground (arith, digits-scan fuel (n / 10) (omega arith) ((b'0' + n % 10) ∷ out))

unsigned-AllDigits : (s : Bytes) → AllDigits s → s ≢ [] → parse_u16 s ≡ scan s 0
unsigned-AllDigits [] _ some_digit = absurd (some_digit refl)
unsigned-AllDigits (c ∷ s) (low, high, rest) some_digit = unsigned c s (omega arith)

pub parse_u16-to_string : (n : ℕ) → n < 2 ^ 16 → parse_u16 (to_string n) ≡ some n
unfolding to_string scan
parse_u16-to_string n small =
    let (all_digits, some_digit) = to_string-IsPrint n in
    let back = digits-scan 5 n (omega arith) [] small in
    ground (arith, unsigned-AllDigits (to_string n) all_digits some_digit, back)
