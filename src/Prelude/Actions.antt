-- ===== src/Prelude/Actions.antt =====
-- A method that changes the state of its object and may raise. What was written before a raise
-- stays written, so the state comes back beside the error too.
use mathlib.Core.Path.{◌≡◌, refl}
use mathlib.Core.Logic.{◌⊎◌, inl, inr}
use mathlib.Core.Bool.{Bool, true, false}
use mathlib.Core.Option.{Option, none, some}

-- what a call without a result returns
abbrev pub ⊤ : Type 0
⊤ = Unit

pub data Result {ℓ κ} (E : Type ℓ) (A : Type κ) : Type (ℓ ⊔ κ) where
  ok : A → Result E A
  err : E → Result E A

pub Result-cases {ℓ κ} :
    {E : Type ℓ} {A : Type κ} (r : Result E A) → ((e : E) × (r ≡ err e)) ⊎ ((a : A) × (r ≡ ok a))
Result-cases (ok a) = inr (a, refl)
Result-cases (err e) = inl (e, refl)

abbrev pub map_result {ℓ κ μ} :
    {E : Type ℓ} {A : Type κ} {B : Type μ} → (A → B) → Result E A → Result E B
map_result f (ok a) = ok (f a)
map_result f (err e) = err e

abbrev pub Exec {ℓ κ μ} : Type ℓ → Type κ → Type μ → Type (ℓ ⊔ κ ⊔ μ)
Exec E S A = S → Result E A × S

module _ {ℓ κ μ} {E : Type ℓ} {S : Type κ} {A : Type μ} where
  abbrev pub pure : A → Exec E S A
  pure a s = (ok a, s)

  abbrev pub raise : E → Exec E S A
  raise e s = (err e, s)

  abbrev pub gets : (S → A) → Exec E S A
  gets f s = (ok (f s), s)

  abbrev pub lift : Result E A → Exec E S A
  lift r s = (r, s)

  -- the value of an `Option`, or the error that its absence raises
  abbrev pub or_raise : Option A → E → Exec E S A
  or_raise none e = raise e
  or_raise (some a) e = pure a

infixl 5 ◌>>=◌ ◌>>◌
abbrev pub ◌>>=◌ {ℓ κ μ ν} :
    {E : Type ℓ} {S : Type κ} {A : Type μ} {B : Type ν} → Exec E S A → (A → Exec E S B) → Exec E S B
◌>>=◌ m f s = let (r, s') = m s in elim r [ ok a ↦ f a s' | err e ↦ (err e, s') ]

abbrev pub ◌>>◌ {ℓ κ μ ν} :
    {E : Type ℓ} {S : Type κ} {A : Type μ} {B : Type ν} → Exec E S A → Exec E S B → Exec E S B
m >> k = m >>= λ _. k

module _ {ℓ κ} {E : Type ℓ} {S : Type κ} where
  abbrev pub modify : (S → S) → Exec E S ⊤
  modify f s = (ok tt, f s)

  -- `if c: raise e`
  abbrev pub raise_if : Bool → E → Exec E S ⊤
  raise_if true e = raise e
  raise_if false e = pure tt
