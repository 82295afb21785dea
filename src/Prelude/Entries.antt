-- ===== src/Prelude/Entries.antt =====
-- What is said of every entry of a table, under reads and writes.
use mathlib.Core.Path.{◌≡◌, sym, subst}
use mathlib.Core.Logic.{inl, inr}
use mathlib.Core.Option.{some}
use mathlib.Core.List.{[], ◌∷◌}
use native.Mathlib.Omega.{arith}
use paylink.Prelude.Tests.{Bool-cases}
use paylink.Prelude.Lists.{All}
use paylink.Prelude.Equality.{Eq, ◌==◌, eq_iff_at}
use paylink.Prelude.Tables.{Table, lookup, insert}

module _ {ℓ κ μ} {K : Type ℓ} {V : Type κ} ⦃keys : Eq K⦄ (P : K × V → Type μ) where
  pub All-insert :
      (key : K) (value : V) (rows : Table K V)
      → P (key, value)
      → All P rows
      → All P (insert key value rows)
  unfolding insert
  All-insert key value [] h hs = (h, tt)
  All-insert key value (row ∷ rows) h hs = elim (Bool-cases (row.0 == key)) [
    | inl e ↦ rw e (subst (λ j. P (j, value)) (sym ((eq_iff_at row.0 key).0 e)) h, hs.1)
    | inr e ↦ rw e (hs.0, All-insert key value rows h hs.1)
  ]

  pub All-lookup :
      (key : K) (value : V) (rows : Table K V)
      → All P rows
      → lookup key rows ≡ some value
      → P (key, value)
  unfolding lookup
  All-lookup key value [] hs e = cc
  All-lookup key value (row ∷ rows) hs e = elim (Bool-cases (row.0 == key)) [
    | inl b ↦ subst P (ground (arith, e, b, eq_iff_at row.0 key)) hs.0
    | inr b ↦ All-lookup key value rows hs.1 (ground (arith, e, b))
  ]
