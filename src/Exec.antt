-- ===== src/Exec.antt =====
-- A method that reads and writes an object of type `S`. What was written before an error stays
-- written, so the state comes back beside the error too.
use pyrsia.Outcome.{Outcome, ok, err, panicked}

abbrev pub Exec {ℓ κ μ} : Type ℓ → Type κ → Type μ → Type (ℓ ⊔ κ ⊔ μ)
Exec S E A = S → Outcome E A × S

module _ {ℓ κ μ} {S : Type ℓ} {E : Type κ} {A : Type μ} where
  abbrev pub pure : A → Exec S E A
  pure a s = (ok a, s)

  abbrev pub lift : Outcome E A → Exec S E A
  lift r s = (r, s)

  abbrev pub gets : (S → A) → Exec S E A
  gets f s = (ok (f s), s)

abbrev pub modify {ℓ κ} : {S : Type ℓ} {E : Type κ} → (S → S) → Exec S E (Unit {0})
modify f s = (ok tt, f s)

infixl 5 ◌>>=◌ ◌>>◌
abbrev pub ◌>>=◌ {ℓ κ μ ν} :
    {S : Type ℓ} {E : Type κ} {A : Type μ} {B : Type ν} → Exec S E A → (A → Exec S E B) → Exec S E B
◌>>=◌ m f s =
    let (r, s') = m s in elim r [ ok a ↦ f a s' | err e ↦ (err e, s') | panicked ↦ (panicked, s') ]

abbrev pub ◌>>◌ {ℓ κ μ} :
    {S : Type ℓ} {E : Type κ} {B : Type μ} → Exec S E (Unit {0}) → Exec S E B → Exec S E B
m >> k = m >>= λ _. k
