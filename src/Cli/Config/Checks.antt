-- ===== src/Cli/Config/Checks.antt =====
-- What the checks of src/cli_commands/config.rs let through.
use pyrsia.Base.{
  ℕ, ◌^◌, ◌≤◌, ◌<◌, ◌≡◌, ◌≢◌, refl, sym, ap, ◌∙◌, ◌↔◌, true, false, some, [], ◌∷◌, ◌++◌, Bytes,
  codes, arith, Bool-cases, Option-cases, inl, inr, ◌⊎◌, ltb, leb, ◌&&◌, ◌||◌,
}
use pyrsia.Outcome.{ok, err}
use pyrsia.BuildService.Names.{split}
use pyrsia.Cli.Numerals.{parse_u16, to_string}
use pyrsia.Cli.Numerals.Reading.{IsNumeralOf, parse_u16-IsNumeralOf, IsNumeralOf-parse_u16}
use pyrsia.Cli.Numerals.RoundTrip.{to_string-IsPrint, parse_u16-to_string}
use pyrsia.Cli.DiskSpace.{
  disk_space_captures, is_white, disk_space_captures-divided, disk_space_captures-found,
}
use pyrsia.Cli.Config.{
  Patterns, is_empty, valid_ipv4_address, valid_hostname, valid_host_name, valid_port,
  disk_space_of, valid_disk_space,
}

valid_port-ok : (s t : Bytes) → valid_port s ≡ ok t → (t ≡ s) × ((n : ℕ) × (parse_u16 s ≡ some n))
unfolding valid_port
valid_port-ok s t h = elim (Option-cases (parse_u16 s)) [
  | inl e ↦ absurd (ground arith)
  | inr (n, e) ↦ (ground arith, (n, e))
]

valid_port-parsed : (s : Bytes) (n : ℕ) → parse_u16 s ≡ some n → valid_port s ≡ ok s
unfolding valid_port
valid_port-parsed s n h = ground arith

pub valid_port-cases :
    (s : Bytes) → ((t : Bytes) × (valid_port s ≡ ok t)) ⊎ ((d : Bytes) × (valid_port s ≡ err d))
unfolding valid_port
valid_port-cases s = elim (Option-cases (parse_u16 s)) [
  | inl e ↦ inr (codes "Invalid value for Port Number", ground arith)
  | inr (n, e) ↦ inl (s, ground arith)
]

pub valid_host_name-cases :
    (patterns : Patterns) (s : Bytes)
    → ((t : Bytes) × (valid_host_name patterns s ≡ ok t))
      ⊎ ((d : Bytes) × (valid_host_name patterns s ≡ err d))
unfolding valid_host_name
valid_host_name-cases patterns s =
    elim (Bool-cases (valid_ipv4_address s || valid_hostname patterns s)) [
      | inl e ↦ inl (s, ground arith)
      | inr e ↦ inr (codes "Invalid value for Hostname", ground arith)
    ]

-- Nothing that is accepted is empty.
pub valid_port_some : (s t : Bytes) → valid_port s ≡ ok t → is_empty t ≡ false
unfolding valid_port parse_u16
valid_port_some [] t h = absurd (ground arith)
valid_port_some (c ∷ s) t h = ground (arith, valid_port-ok (c ∷ s) t h)

valid_host_name-ok : (patterns : Patterns) (s t : Bytes) → valid_host_name patterns s ≡ ok t → t ≡ s
unfolding valid_host_name
valid_host_name-ok patterns s t h = ground arith

valid_host_name_empty : (patterns : Patterns) (t : Bytes) → valid_host_name patterns [] ≢ ok t
unfolding valid_host_name valid_ipv4_address valid_hostname split
valid_host_name_empty patterns t h = ground arith

pub valid_host_name_some :
    (patterns : Patterns) (s t : Bytes) → valid_host_name patterns s ≡ ok t → is_empty t ≡ false
valid_host_name_some patterns [] t h = absurd (valid_host_name_empty patterns t h)
valid_host_name_some patterns (c ∷ s) t h = ap is_empty (valid_host_name-ok patterns (c ∷ s) t h)

is_empty-append : (s : Bytes) (b : ℕ) (t : Bytes) → is_empty (s ++ b ∷ t) ≡ false
is_empty-append [] b t = refl
is_empty-append (c ∷ s) b t = refl

-- A port is accepted, as it was written, exactly when it is a numeral of a number below 2^16,
-- which may have a `+` before it.
pub valid_port_iff :
    (s t : Bytes) → (valid_port s ≡ ok t) ↔ ((t ≡ s) × ((n : ℕ) × IsNumeralOf n s × (n < 2 ^ 16)))
valid_port_iff s t = (
  λ h.
      let (same, (n, e)) = valid_port-ok s t h in
      let (numeral, fits) = parse_u16-IsNumeralOf s n e in (same, (n, numeral, fits)),
  λ (same, (n, numeral, fits)).
      valid_port-parsed s n (IsNumeralOf-parse_u16 s n numeral fits) ∙ ap (λ u. ok u) (sym same),
)

disk_space_of-ok :
    (num metric t : Bytes)
    → disk_space_of (num, metric) ≡ ok t
    → (n : ℕ) × (parse_u16 num ≡ some n)
      × (0 < n)
      × (n ≤ 4096)
      × (t ≡ to_string n ++ (b' ' ∷ metric))
unfolding disk_space_of
disk_space_of-ok num metric t h = elim (Option-cases (parse_u16 num)) [
  | inl e ↦ absurd (ground arith)
  | inr (n, e) ↦ (n, e, ground arith, ground arith, ground arith)
]

disk_space_of-parsed :
    (num metric : Bytes) (n : ℕ)
    → parse_u16 num ≡ some n
    → 0 < n
    → n ≤ 4096
    → disk_space_of (num, metric) ≡ ok (to_string n ++ (b' ' ∷ metric))
unfolding disk_space_of
disk_space_of-parsed num metric n e low high = ground arith

disk_space_of-cases :
    (num metric : Bytes)
    → ((t : Bytes) × (disk_space_of (num, metric) ≡ ok t))
      ⊎ ((d : Bytes) × (disk_space_of (num, metric) ≡ err d))
unfolding disk_space_of
disk_space_of-cases num metric = elim (Option-cases (parse_u16 num)) [
  | inl e ↦ inr (codes "Invalid value for Disk Allocation", ground arith)
  | inr (n, e) ↦ elim (Bool-cases (ltb 0 n && leb n 4096)) [
    | inl e2 ↦ inl (to_string n ++ (b' ' ∷ metric), ground arith)
    | inr e2 ↦ inr (codes "Invalid value for Disk Allocation", ground arith)
  ]
]

valid_disk_space-ok :
    (s t : Bytes)
    → valid_disk_space s ≡ ok t
    → (groups : Bytes × Bytes) × (disk_space_captures s ≡ some groups)
      × (disk_space_of groups ≡ ok t)
unfolding valid_disk_space
valid_disk_space-ok s t h = elim (Option-cases (disk_space_captures s)) [
  | inl e ↦ absurd (ground arith)
  | inr (groups, e) ↦ (groups, e, ground arith)
]

valid_disk_space-captured :
    (s : Bytes) (groups : Bytes × Bytes)
    → disk_space_captures s ≡ some groups
    → valid_disk_space s ≡ disk_space_of groups
unfolding valid_disk_space
valid_disk_space-captured s groups c = ground (arith, c)

disk_space_fixed :
    (n : ℕ)
    → 0 < n
    → n ≤ 4096
    → valid_disk_space (to_string n ++ (b' ' ∷ codes "GB"))
      ≡ ok (to_string n ++ (b' ' ∷ codes "GB"))
disk_space_fixed n low high =
    let num = to_string n in
    valid_disk_space-captured (num ++ (b' ' ∷ codes "GB")) (num, codes "GB")
      (disk_space_captures-found num (to_string-IsPrint n).1 (to_string-IsPrint n).0)
    ∙ disk_space_of-parsed num (codes "GB") n (parse_u16-to_string n (omega arith)) low high

-- A disk space that is accepted is a numeral of a number from 1 to 4096, one or more characters of
-- white space, and `GB`. What is kept is the number in decimal, a blank and `GB`, and that is
-- accepted and kept as it is.
pub valid_disk_space_lem :
    (s t : Bytes)
    → valid_disk_space s ≡ ok t
    → ((n : ℕ) × (0 < n)
        × (n ≤ 4096)
        × (t ≡ to_string n ++ (b' ' ∷ codes "GB"))
        × ((num : Bytes) × (blanks : Bytes) × IsNumeralOf n num
            × (is_white blanks ≡ true)
            × (s ≡ num ++ (blanks ++ codes "GB"))))
      × (valid_disk_space t ≡ ok t)
valid_disk_space_lem s t h =
    let ((num, metric), c, accepted) = valid_disk_space-ok s t h in
    let (n, e, low, high, kept) = disk_space_of-ok num metric t accepted in
    let (unit, (blanks, white, text)) = disk_space_captures-divided s num metric c in
    let kept_gb : t ≡ to_string n ++ (b' ' ∷ codes "GB") =
      kept ∙ ap (λ m. to_string n ++ (b' ' ∷ m)) unit in
    (
      (n, low, high, kept_gb, (num, blanks, (parse_u16-IsNumeralOf num n e).0, white, text)),
      ap valid_disk_space kept_gb ∙ disk_space_fixed n low high ∙ ap (λ u. ok u) (sym kept_gb),
    )

pub valid_disk_space_some : (s t : Bytes) → valid_disk_space s ≡ ok t → is_empty t ≡ false
valid_disk_space_some s t h =
    let ((num, metric), c, accepted) = valid_disk_space-ok s t h in
    let (n, e, low, high, kept) = disk_space_of-ok num metric t accepted in
    ap is_empty kept ∙ is_empty-append (to_string n) b' ' metric

-- No input makes the check panic.
pub valid_disk_space-cases :
    (s : Bytes)
    → ((t : Bytes) × (valid_disk_space s ≡ ok t)) ⊎ ((d : Bytes) × (valid_disk_space s ≡ err d))
unfolding valid_disk_space
valid_disk_space-cases s = elim (Option-cases (disk_space_captures s)) [
  | inl e ↦ inr (codes "Invalid value for Disk Allocation", ground arith)
  | inr (groups, e) ↦ elim (disk_space_of-cases groups.0 groups.1) [
    | inl (t, good) ↦ inl (t, ground arith)
    | inr (d, bad) ↦ inr (d, ground arith)
  ]
]
