-- ===== src/Cli/DiskSpace.antt =====
-- The regular expression DISK_SPACE_RE of src/cli_commands/config.rs: `^([0-9,\.]+)\s+(GB)$`. Its
-- classes have no character in common, so that a text is divided in one way at most.
use pyrsia.Base.{
  ℕ, zero, suc, ◌-◌, ◌≡◌, ◌≢◌, refl, sym, ap, ◌∙◌, Bool, true, false, ◌&&◌, ◌||◌, Option, none,
  some, [], ◌∷◌, ◌++◌, Bytes, codes, length, take, drop, arith, leb, ◌==◌, if◌then◌else◌,
  Bool-cases, inl, inr,
}
use pyrsia.TransparencyLog.Database.{bytes_eq, bytes_eq_iff}
use pyrsia.Cli.Numerals.Reading.{AllDigits}

-- How much of the encoding in UTF-8 of a character of White_Space has been read
pub data Partial : Type 0 where
  between after_c2 after_e1 after_e1_9a after_e2 after_e2_80 after_e2_81 after_e3 after_e3_80 :
      Partial

abbrev step : Partial → ℕ → Option Partial
step between c =
    if (leb 9 c && leb c 13) || c == 32
    then some between
    else if c == 0xc2
    then some after_c2
    else if c == 0xe1
    then some after_e1
    else if c == 0xe2
    then some after_e2
    else if c == 0xe3
    then some after_e3
    else none
step after_c2 c = if c == 0x85 || c == 0xa0 then some between else none
step after_e1 c = if c == 0x9a then some after_e1_9a else none
step after_e1_9a c = if c == 0x80 then some between else none
step after_e2 c =
    if c == 0x80 then some after_e2_80 else if c == 0x81 then some after_e2_81 else none
step after_e2_80 c =
    if (leb 0x80 c && leb c 0x8a) || c == 0xa8 || c == 0xa9 || c == 0xaf then some between else none
step after_e2_81 c = if c == 0x9f then some between else none
step after_e3 c = if c == 0x80 then some after_e3_80 else none
step after_e3_80 c = if c == 0x80 then some between else none

white_from : Partial → Bytes → Bool
white_from between [] = true
white_from after_c2 [] = false
white_from after_e1 [] = false
white_from after_e1_9a [] = false
white_from after_e2 [] = false
white_from after_e2_80 [] = false
white_from after_e2_81 [] = false
white_from after_e3 [] = false
white_from after_e3_80 [] = false
white_from p (c ∷ s) = elim (step p c) [ none ↦ false | some q ↦ white_from q s ]

abbrev is_some_bytes : Bytes → Bool
is_some_bytes [] = false
is_some_bytes (c ∷ s) = true

-- `\s+`
unfoldable pub is_white : Bytes → Bool
unfolding white_from
is_white s = is_some_bytes s && white_from between s

-- `[0-9,\.]`
abbrev is_amount : ℕ → Bool
is_amount c = (leb b'0' c && leb c b'9') || c == b',' || c == b'.'

-- `[0-9,\.]*` as far as it goes, and what is left
unfoldable pub take_amount : Bytes → Bytes × Bytes
take_amount [] = ([], [])
take_amount (c ∷ s) =
    let (run, rest) = take_amount s in if is_amount c then (c ∷ run, rest) else ([], c ∷ s)

-- The two groups of a match
unfoldable pub disk_space_captures : Bytes → Option (Bytes × Bytes)
unfolding take_amount is_white
disk_space_captures s =
    let (num, rest) = take_amount s in
    let n = length rest - 2 in
    if is_some_bytes num && is_white (take n rest) && bytes_eq (drop n rest) (codes "GB")
    then some (num, codes "GB")
    else none

take-drop_append : (n : ℕ) (s : Bytes) → take n s ++ drop n s ≡ s
take-drop_append zero s = refl
take-drop_append (suc n) [] = refl
take-drop_append (suc n) (c ∷ s) = ap (◌∷◌ c) (take-drop_append n s)

take_amount-append : (s : Bytes) → (take_amount s).0 ++ (take_amount s).1 ≡ s
unfolding take_amount
take_amount-append [] = refl
take_amount-append (c ∷ s) = elim (Bool-cases (is_amount c)) [
  | inl e ↦ ground (arith, e, take_amount-append s)
  | inr e ↦ ground (arith, e)
]

-- What a match is divided into
pub disk_space_captures-divided :
    (s num metric : Bytes)
    → disk_space_captures s ≡ some (num, metric)
    → (metric ≡ codes "GB")
      × ((blanks : Bytes) × (is_white blanks ≡ true) × (s ≡ num ++ (blanks ++ codes "GB")))
unfolding disk_space_captures
disk_space_captures-divided s num metric h =
    let (run, rest) = take_amount s in
    let n = length rest - 2 in
    elim (Bool-cases
      (is_some_bytes run && is_white (take n rest) && bytes_eq (drop n rest) (codes "GB"))) [
        | inr e ↦ absurd (ground arith)
        | inl e ↦
            let unit = (bytes_eq_iff (drop n rest) (codes "GB")).0 (ground arith) in
            let same : run ≡ num = ground arith in
            (
              ground arith,
              (
                take n rest,
                ground arith,
                sym (take_amount-append s)
                    ∙ ap (λ r. r ++ rest) same
                    ∙ ap (λ t. num ++ t)
                        (sym (take-drop_append n rest) ∙ ap (λ u. take n rest ++ u) unit),
              ),
            )
      ]

take_amount-digits :
    (num : Bytes)
    → AllDigits num
    → take_amount (num ++ (b' ' ∷ codes "GB")) ≡ (num, b' ' ∷ codes "GB")
unfolding take_amount
take_amount-digits [] digits = refl
take_amount-digits (c ∷ num) (low, high, digits) = ground (arith, take_amount-digits num digits)

-- Digits, one blank and `GB` match.
pub disk_space_captures-found :
    (num : Bytes)
    → num ≢ []
    → AllDigits num
    → disk_space_captures (num ++ (b' ' ∷ codes "GB")) ≡ some (num, codes "GB")
unfolding disk_space_captures bytes_eq
disk_space_captures-found [] some_digit digits = absurd (some_digit refl)
disk_space_captures-found (c ∷ num) some_digit digits =
    rw (take_amount-digits (c ∷ num) digits) refl
