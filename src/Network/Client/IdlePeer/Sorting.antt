-- ===== src/Network/Client/IdlePeer/Sorting.antt =====
-- How the metrics are sorted in `get_idle_peer` of src/network/client.rs.
use pyrsia.Base.{
  suc, ◌≡◌, ◌≢◌, refl, ap, sym, ◌∙◌, Bool, true, false, none, some, List, [], ◌∷◌, Bytes, arith,
  ◌⊎◌, inl, inr, Bool-cases,
}
use pyrsia.Outcome.{Outcome, ok, err, panicked, ◌>>=◌}
use pyrsia.TransparencyLog.Database.{IsIn}
use pyrsia.Network.Client.{ClientError}
use pyrsia.Network.Client.IdlePeer.{
  Order, less, equal, greater, Floats, IdleMetric, insert, sort_by_metric,
}

abbrev IsAtMost : Floats → Bytes → Bytes → Type 0
IsAtMost f a b = f.partial_cmp a b ≢ some greater

-- The bytes that are numbers compare as numbers do, and the others with nothing.
pub record FloatLaws (f : Floats) (is_number : Bytes → Bool) : Type 0 where
  pub compares :
      (a b : Bytes)
      → is_number a ≡ true
      → is_number b ≡ true
      → (o : Order) × (f.partial_cmp a b ≡ some o)
  pub opposite : (a b : Bytes) → f.partial_cmp a b ≡ some greater → f.partial_cmp b a ≡ some less
  pub transitive :
      (a b c : Bytes)
      → is_number b ≡ true
      → f.partial_cmp a b ≢ some greater
      → f.partial_cmp b c ≢ some greater
      → f.partial_cmp a c ≢ some greater
  pub not_a_number :
      (a b : Bytes) → is_number a ≡ false → (f.partial_cmp a b ≡ none) × (f.partial_cmp b a ≡ none)

abbrev pub AllNumbers : (Bytes → Bool) → List IdleMetric → Type 0
AllNumbers is_number [] = Unit {0}
AllNumbers is_number (x ∷ xs) = (is_number x.metric ≡ true) × AllNumbers is_number xs

-- `x` is at most any of these.
abbrev pub IsLeast : Floats → IdleMetric → List IdleMetric → Type 0
IsLeast f x [] = Unit {0}
IsLeast f x (y ∷ ys) = IsAtMost f x.metric y.metric × IsLeast f x ys

module _ (f : Floats) (is_number : Bytes → Bool) (laws : FloatLaws f is_number) where
  IsLeast-le :
      (x y : IdleMetric) (ys : List IdleMetric)
      → is_number y.metric ≡ true
      → IsAtMost f x.metric y.metric
      → IsLeast f y ys
      → IsLeast f x ys
  IsLeast-le x y [] n h l = tt
  IsLeast-le x y (z ∷ zs) n h l =
      (laws.transitive x.metric y.metric z.metric n h l.0, IsLeast-le x y zs n h l.1)

  IsAtMost-self : (a : Bytes) → is_number a ≡ true → IsAtMost f a a
  IsAtMost-self a n h = cc (laws.opposite a a h)

  insert_empty : (x : IdleMetric) → insert f x [] ≡ ok (x ∷ [])
  unfolding insert
  insert_empty x = refl

  compared :
      (a b : Bytes)
      → is_number a ≡ true
      → is_number b ≡ true
      → IsAtMost f a b × ((f.partial_cmp a b ≡ some less) ⊎ (f.partial_cmp a b ≡ some equal))
        ⊎ (f.partial_cmp a b ≡ some greater)
  compared a b n m = let (o, e) = laws.compares a b n m in ordered o e
    where
      ordered :
          (o : Order)
          → f.partial_cmp a b ≡ some o
          → IsAtMost f a b × ((f.partial_cmp a b ≡ some less) ⊎ (f.partial_cmp a b ≡ some equal))
            ⊎ (f.partial_cmp a b ≡ some greater)
      ordered less e = inl ((λ h. cc), inl e)
      ordered equal e = inl ((λ h. cc), inr e)
      ordered greater e = inr e

  -- Among numbers, insertion does not panic.
  insert_numbers :
      (x : IdleMetric) (ys : List IdleMetric)
      → is_number x.metric ≡ true
      → AllNumbers is_number ys
      → (zs : List IdleMetric) × (insert f x ys ≡ ok zs) × AllNumbers is_number zs
  unfolding insert
  insert_numbers x [] n all = (x ∷ [], refl, (n, tt))
  insert_numbers x (y ∷ ys) n all =
      let (zs, deeper, numbers) = insert_numbers x ys n all.1 in
      elim (compared x.metric y.metric n all.0) [
        | inl (_, before) ↦ (x ∷ y ∷ ys, ground (arith, before), (n, all))
        | inr after ↦ (y ∷ zs, ground (arith, after, deeper), (all.0, numbers))
      ]

  -- Its head is the lower of the two heads.
  insert-head :
      (x y : IdleMetric) (ys : List IdleMetric)
      → is_number x.metric ≡ true
      → AllNumbers is_number (y ∷ ys)
      → (z : IdleMetric) × (zs : List IdleMetric) × (insert f x (y ∷ ys) ≡ ok (z ∷ zs))
        × AllNumbers is_number (z ∷ zs)
        × IsAtMost f z.metric x.metric
        × IsAtMost f z.metric y.metric
        × ((z ≡ x) ⊎ (z ≡ y))
  unfolding insert
  insert-head x y ys n all =
      let (zs, deeper, numbers) = insert_numbers x ys n all.1 in
      elim (compared x.metric y.metric n all.0) [
        | inl (at_most, before) ↦ (
          x,
          y ∷ ys,
          ground (arith, before),
          (n, all),
          IsAtMost-self x.metric n,
          at_most,
          inl refl,
        )
        | inr after ↦
            let lower : IsAtMost f y.metric x.metric =
              λ h. cc (laws.opposite x.metric y.metric after) in
            (
              y,
              zs,
              ground (arith, after, deeper),
              (all.0, numbers),
              lower,
              IsAtMost-self y.metric all.0,
              inr refl,
            )
      ]

  -- Sorting a list of numbers puts the lowest first.
  pub sort_by_metric-head :
      (x : IdleMetric) (xs : List IdleMetric)
      → AllNumbers is_number (x ∷ xs)
      → (z : IdleMetric) × (zs : List IdleMetric) × (sort_by_metric f (x ∷ xs) ≡ ok (z ∷ zs))
        × AllNumbers is_number (z ∷ zs)
        × IsIn z (x ∷ xs)
        × IsLeast f z (x ∷ xs)
  unfolding sort_by_metric
  sort_by_metric-head x [] all =
      (x, [], insert_empty x, all, (0, refl), (IsAtMost-self x.metric all.0, tt))
  sort_by_metric-head x (y ∷ ys) all =
      let (z, zs, sorted, numbers, at, least) = sort_by_metric-head y ys all.1 in
      let (h, hs, inserted, numbers', below_x, below_z, which) = insert-head x z zs all.0 numbers in
      (
        h,
        hs,
        ground (arith, sorted, inserted),
        numbers',
        elim which [ inl e ↦ (0, ap some (sym e)) | inr e ↦ (suc at.0, at.1 ∙ ap some (sym e)) ],
        (below_x, IsLeast-le h z (y ∷ ys) numbers.0 below_z least),
      )

  sorted_cases :
      (x : IdleMetric) (o : Outcome ClientError (List IdleMetric))
      → ((rest : List IdleMetric) × (o ≡ ok rest))
        ⊎ ((zs : List IdleMetric) → (o >>= λ rest. insert f x rest) ≢ ok zs)
  sorted_cases x (ok rest) = inl (rest, refl)
  sorted_cases x (err e) = inr (λ zs h. cc)
  sorted_cases x panicked = inr (λ zs h. cc)

  insert-nan :
      (x y : IdleMetric) (ys : List IdleMetric)
      → (is_number x.metric ≡ false) ⊎ (is_number y.metric ≡ false)
      → insert f x (y ∷ ys) ≡ panicked
  unfolding insert
  insert-nan x y ys (inl n) = ground (arith, laws.not_a_number x.metric y.metric n)
  insert-nan x y ys (inr n) = ground (arith, laws.not_a_number y.metric x.metric n)

  -- The head of a sorted list of two or more stands for all: they are numbers, or it panics.
  pub sort_by_metric-numbers :
      (x y : IdleMetric) (ys zs : List IdleMetric)
      → sort_by_metric f (x ∷ y ∷ ys) ≡ ok zs
      → AllNumbers is_number (x ∷ y ∷ ys)
  unfolding sort_by_metric
  sort_by_metric-numbers x y [] zs e = elim (Bool-cases (is_number x.metric)) [
    | inr bad ↦ absurd (ground (arith, e, insert_empty y, insert-nan x y [] (inl bad)))
    | inl good ↦ elim (Bool-cases (is_number y.metric)) [
      | inr bad ↦ absurd (ground (arith, e, insert_empty y, insert-nan x y [] (inr bad)))
      | inl good' ↦ (good, (good', tt))
    ]
  ]
  sort_by_metric-numbers x y (w ∷ ws) zs e = elim (sorted_cases x (sort_by_metric f (y ∷ w ∷ ws))) [
    | inr none' ↦ absurd (none' zs e)
    | inl (rest, sorted) ↦
        let all = sort_by_metric-numbers y w ws rest sorted in
        let (h, hs, e', _, _, _) = sort_by_metric-head y (w ∷ ws) all in
        elim (Bool-cases (is_number x.metric)) [
          | inl good ↦ (good, all)
          | inr bad ↦ absurd (ground (arith, e, e', insert-nan x h hs (inl bad)))
        ]
  ]

module _ (f : Floats) where
  insert-ne-err : (x : IdleMetric) (ys : List IdleMetric) (e : ClientError) → insert f x ys ≢ err e
  unfolding insert
  insert-ne-err x [] e h = cc
  insert-ne-err x (y ∷ ys) e h = ground (arith, h, insert-ne-err x ys e)

  sort_by_metric-ne-err : (xs : List IdleMetric) (e : ClientError) → sort_by_metric f xs ≢ err e
  unfolding sort_by_metric
  sort_by_metric-ne-err [] e h = cc
  sort_by_metric-ne-err (x ∷ xs) e h =
      result (sort_by_metric f xs) (λ k. sort_by_metric-ne-err xs e k) h
    where
      result :
          (o : Outcome ClientError (List IdleMetric))
          → o ≢ err e
          → (o >>= λ rest. insert f x rest) ≢ err e
      result (ok rest) n k = insert-ne-err x rest e k
      result (err d) n k = n k
      result panicked n k = cc

  pub sort_by_metric-cases :
      (xs : List IdleMetric)
      → ((zs : List IdleMetric) × (sort_by_metric f xs ≡ ok zs)) ⊎ (sort_by_metric f xs ≡ panicked)
  sort_by_metric-cases xs = result (sort_by_metric f xs) (sort_by_metric-ne-err xs)
    where
      result :
          (o : Outcome ClientError (List IdleMetric))
          → ((e : ClientError) → o ≢ err e)
          → ((zs : List IdleMetric) × (o ≡ ok zs)) ⊎ (o ≡ panicked)
      result (ok zs) n = inl (zs, refl)
      result (err e) n = absurd (n e refl)
      result panicked n = inr refl
