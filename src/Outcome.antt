-- ===== src/Outcome.antt =====
-- How a call ends: with a value, with an error that the caller handles, or with a panic, such as
-- an `unwrap` of `None` or an index out of bounds.
use pyrsia.Base.{Option, none, some}

pub data Outcome {ℓ κ} (E : Type ℓ) (A : Type κ) : Type (ℓ ⊔ κ) where
  ok : A → Outcome E A
  err : E → Outcome E A
  panicked : Outcome E A

infixl 5 ◌>>=◌ ◌>>◌
-- `?` and the sequence of statements
abbrev pub ◌>>=◌ {ℓ κ μ} :
    {E : Type ℓ} {A : Type κ} {B : Type μ} → Outcome E A → (A → Outcome E B) → Outcome E B
ok a >>= f = f a
err e >>= f = err e
panicked >>= f = panicked

abbrev pub ◌>>◌ {ℓ κ} : {E : Type ℓ} {B : Type κ} → Outcome E (Unit {0}) → Outcome E B → Outcome E B
m >> k = m >>= λ _. k

module _ {ℓ κ} {E : Type ℓ} {A : Type κ} where
  -- `Option::unwrap`
  abbrev pub unwrap : Option A → Outcome E A
  unwrap none = panicked
  unwrap (some a) = ok a

  -- `Option::ok_or`
  abbrev pub ok_or : Option A → E → Outcome E A
  ok_or none e = err e
  ok_or (some a) e = ok a

-- `Result::unwrap`
abbrev pub unwrap_result {ℓ κ μ} :
    {D : Type ℓ} {E : Type κ} {A : Type μ} → Outcome D A → Outcome E A
unwrap_result (ok a) = ok a
unwrap_result (err d) = panicked
unwrap_result panicked = panicked

-- `Result::map_err`, which `?` applies to turn one error type into another
abbrev pub map_err {ℓ κ μ} :
    {D : Type ℓ} {E : Type κ} {A : Type μ} → (D → E) → Outcome D A → Outcome E A
map_err f (ok a) = ok a
map_err f (err d) = err (f d)
map_err f panicked = panicked
