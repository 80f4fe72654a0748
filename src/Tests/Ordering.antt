-- ===== src/Tests/Ordering.antt =====
-- A database whose `newest_first` is an insertion sort, and its laws.
use pyrsia.Base.{
  zero, suc, length, refl, ◌∙◌, ◌≡◌, ap, sym, subst, true, false, not, some, List, [], ◌∷◌, arith,
  leb, ◌⊎◌, ◌↔◌, inl, inr, Bool-cases, if◌then◌else◌,
}
use pyrsia.Outcome.{err}
use pyrsia.TransparencyLog.Types.{TransparencyLog, database_failure}
use pyrsia.TransparencyLog.Database.{Database, DatabaseLaws, IsNewestFirst, IsIn, keep, bytes_eq}
use pyrsia.TransparencyLog.Reading.{sort_by_timestamp}

unfoldable insert_newest : TransparencyLog → List TransparencyLog → List TransparencyLog
insert_newest x [] = x ∷ []
insert_newest x (y ∷ ys) =
    if leb y.timestamp x.timestamp then x ∷ y ∷ ys else y ∷ insert_newest x ys

unfoldable pub sort_newest : List TransparencyLog → List TransparencyLog
unfolding insert_newest
sort_newest [] = []
sort_newest (x ∷ xs) = insert_newest x (sort_newest xs)

-- The first row of each node
unfoldable pub first_of_each : List TransparencyLog → List TransparencyLog
unfolding keep
first_of_each [] = []
first_of_each (x ∷ xs) =
    x ∷ keep (λ (y : TransparencyLog). not (bytes_eq y.node_id x.node_id)) (first_of_each xs)

abbrev pub database : Database
database = record {
  makes_directory = true;
  connects = true;
  accepts = λ _. true;
  malformed = λ _ _. err database_failure;
  malformed_node = λ _ _. false;
  newest_first = sort_newest;
  oldest_first = sort_by_timestamp;
  newest_by_node = λ rows. first_of_each (sort_newest rows);
}

IsIn-cases :
    (z y : TransparencyLog) (ys : List TransparencyLog) → IsIn z (y ∷ ys) → (y ≡ z) ⊎ IsIn z ys
IsIn-cases z y ys (zero, e) = inl (ground (arith, e))
IsIn-cases z y ys (suc i, e) = inr (i, e)

nothing : {z : TransparencyLog} → IsIn z [] → ⊥
nothing (i, e) = absurd (cc)

there : (z y : TransparencyLog) (ys : List TransparencyLog) → IsIn z ys → IsIn z (y ∷ ys)
there z y ys (i, e) = (suc i, e)

here : (z y : TransparencyLog) (ys : List TransparencyLog) → y ≡ z → IsIn z (y ∷ ys)
here z y ys e = (0, ap some e)

insert_newest_head :
    (x y : TransparencyLog) (ys : List TransparencyLog)
    → leb y.timestamp x.timestamp ≡ true
    → insert_newest x (y ∷ ys) ≡ x ∷ y ∷ ys
unfolding insert_newest
insert_newest_head x y ys h = ground (arith, h)

insert_newest_later :
    (x y : TransparencyLog) (ys : List TransparencyLog)
    → leb y.timestamp x.timestamp ≡ false
    → insert_newest x (y ∷ ys) ≡ y ∷ insert_newest x ys
unfolding insert_newest
insert_newest_later x y ys h = ground (arith, h)

insert_newest-IsIn :
    (x z : TransparencyLog) (ys : List TransparencyLog)
    → IsIn z (insert_newest x ys)
    → (x ≡ z) ⊎ IsIn z ys
unfolding insert_newest
insert_newest-IsIn x z [] at = IsIn-cases z x [] at
insert_newest-IsIn x z (y ∷ ys) at = elim (Bool-cases (leb y.timestamp x.timestamp)) [
  | inl first ↦ IsIn-cases z x (y ∷ ys) (subst (IsIn z) (insert_newest_head x y ys first) at)
  | inr later ↦
      elim (IsIn-cases z y (insert_newest x ys)
        (subst (IsIn z) (insert_newest_later x y ys later) at)) [
          | inl e ↦ inr (here z y ys e)
          | inr deeper ↦ elim (insert_newest-IsIn x z ys deeper) [
            | inl e ↦ inl e
            | inr below ↦ inr (there z y ys below)
          ]
        ]
]

IsIn-insert_newest :
    (x z : TransparencyLog) (ys : List TransparencyLog)
    → (x ≡ z) ⊎ IsIn z ys
    → IsIn z (insert_newest x ys)
unfolding insert_newest
IsIn-insert_newest x z [] (inl e) = here z x [] e
IsIn-insert_newest x z [] (inr at) = absurd (nothing at)
IsIn-insert_newest x z (y ∷ ys) at = elim (Bool-cases (leb y.timestamp x.timestamp)) [
  | inl first ↦
      subst (IsIn z) (sym (insert_newest_head x y ys first))
        (elim at [ inl e ↦ here z x (y ∷ ys) e | inr below ↦ there z x (y ∷ ys) below ])
  | inr later ↦ subst (IsIn z) (sym (insert_newest_later x y ys later)) (elim at [
    | inl e ↦ there z y (insert_newest x ys) (IsIn-insert_newest x z ys (inl e))
    | inr below ↦ elim (IsIn-cases z y ys below) [
      | inl e ↦ here z y (insert_newest x ys) e
      | inr deeper ↦ there z y (insert_newest x ys) (IsIn-insert_newest x z ys (inr deeper))
    ]
  ])
]

insert_newest-IsNewestFirst :
    (x : TransparencyLog) (ys : List TransparencyLog)
    → IsNewestFirst ys
    → IsNewestFirst (insert_newest x ys)
unfolding insert_newest
insert_newest-IsNewestFirst x [] o = ((λ z at. absurd (nothing at)), tt)
insert_newest-IsNewestFirst x (y ∷ ys) o = elim (Bool-cases (leb y.timestamp x.timestamp)) [
  | inl first ↦ subst IsNewestFirst (sym (insert_newest_head x y ys first)) (
    (λ z at. elim (IsIn-cases z y ys at) [
      | inl e ↦ ground (arith, ap (λ (l : TransparencyLog). l.timestamp) e)
      | inr below ↦ ground (arith, o.0 z below)
    ]),
    o,
  )
  | inr later ↦ subst IsNewestFirst (sym (insert_newest_later x y ys later)) (
    (λ z at. elim (insert_newest-IsIn x z ys at) [
      | inl e ↦ ground (arith, ap (λ (l : TransparencyLog). l.timestamp) e)
      | inr below ↦ o.0 z below
    ]),
    insert_newest-IsNewestFirst x ys o.1,
  )
]

sort_newest-IsNewestFirst : (rows : List TransparencyLog) → IsNewestFirst (sort_newest rows)
unfolding sort_newest
sort_newest-IsNewestFirst [] = tt
sort_newest-IsNewestFirst (x ∷ xs) =
    insert_newest-IsNewestFirst x (sort_newest xs) (sort_newest-IsNewestFirst xs)

sort_newest-IsIn :
    (rows : List TransparencyLog) (z : TransparencyLog) → IsIn z (sort_newest rows) ↔ IsIn z rows
unfolding sort_newest
sort_newest-IsIn [] z = (λ at. at, λ at. at)
sort_newest-IsIn (x ∷ xs) z = (
  (λ at. elim (insert_newest-IsIn x z (sort_newest xs) at) [
    | inl e ↦ here z x xs e
    | inr below ↦ there z x xs ((sort_newest-IsIn xs z).0 below)
  ]),
  (λ at. IsIn-insert_newest x z (sort_newest xs) (elim (IsIn-cases z x xs at) [
    | inl e ↦ inl e
    | inr below ↦ inr ((sort_newest-IsIn xs z).1 below)
  ])),
)

length-insert_newest :
    (x : TransparencyLog) (ys : List TransparencyLog)
    → length (insert_newest x ys) ≡ suc (length ys)
unfolding insert_newest
length-insert_newest x [] = refl
length-insert_newest x (y ∷ ys) = ground (arith, length-insert_newest x ys)

length-sort_newest : (rows : List TransparencyLog) → length (sort_newest rows) ≡ length rows
unfolding sort_newest
length-sort_newest [] = refl
length-sort_newest (x ∷ xs) =
    length-insert_newest x (sort_newest xs) ∙ ap (λ n. suc n) (length-sort_newest xs)

pub laws : DatabaseLaws database
laws = record {
  orders = sort_newest-IsNewestFirst;
  keeps = sort_newest-IsIn;
  sizes = length-sort_newest;
}
