-- ===== src/Prelude/Tables.antt =====
-- A table or a Python dict: an association list under Boolean equality of keys, in insertion order.
use mathlib.Core.Path.{◌≡◌, refl}
use mathlib.Core.Option.{Option, none, some}
use mathlib.Core.List.{List, [], ◌∷◌}
use native.Mathlib.Omega.{arith}
use paylink.Prelude.Tests.{if◌then◌else◌}
use paylink.Prelude.Equality.{Eq, ◌==◌, eq_iff_at}

abbrev pub Table {ℓ κ} : Type ℓ → Type κ → Type (ℓ ⊔ κ)
Table K V = List (K × V)

module _ {ℓ κ} {K : Type ℓ} {V : Type κ} ⦃keys : Eq K⦄ where
  -- `table.get(key)`, or a `SELECT` by the primary key
  unfoldable pub lookup : K → Table K V → Option V
  lookup key [] = none
  lookup key (row ∷ rows) = if row.0 == key then some row.1 else lookup key rows

  -- `table[key] = value`: an old entry is replaced where it stands, a new one goes to the end
  unfoldable pub insert : K → V → Table K V → Table K V
  insert key value [] = (key, value) ∷ []
  insert key value (row ∷ rows) =
      if row.0 == key then (row.0, value) ∷ rows else row ∷ insert key value rows

  -- `del table[key]`, of a key that may be missing
  unfoldable pub erase : K → Table K V → Table K V
  erase key [] = []
  erase key (row ∷ rows) = let rest = erase key rows in if row.0 == key then rest else row ∷ rest

  pub lookup-insert :
      (key other : K) (value : V) (rows : Table K V)
      → lookup other (insert key value rows)
        ≡ (if key == other then some value else lookup other rows)
  unfolding lookup insert
  lookup-insert key other value [] = refl
  lookup-insert key other value (row ∷ rows) = ground (
    arith,
    lookup-insert key other value rows,
    eq_iff_at row.0 key,
    eq_iff_at row.0 other,
    eq_iff_at key other,
  )

  pub lookup-erase :
      (key other : K) (rows : Table K V)
      → lookup other (erase key rows) ≡ (if key == other then none else lookup other rows)
  unfolding lookup erase
  lookup-erase key other [] = ground arith
  lookup-erase key other (row ∷ rows) = ground (
    arith,
    lookup-erase key other rows,
    eq_iff_at row.0 key,
    eq_iff_at row.0 other,
    eq_iff_at key other,
  )

  -- No key is listed twice.
  abbrev pub IsDict : Table K V → Type (ℓ ⊔ κ)
  IsDict [] = Unit
  IsDict (row ∷ rows) = (lookup row.0 rows ≡ none) × IsDict rows

  pub insert-IsDict :
      (key : K) (value : V) (rows : Table K V) → IsDict rows → IsDict (insert key value rows)
  unfolding insert lookup
  insert-IsDict key value [] dict = ground arith
  insert-IsDict key value (row ∷ rows) dict = ground (
    arith,
    insert-IsDict key value rows dict.1,
    lookup-insert key row.0 value rows,
    eq_iff_at row.0 key,
    eq_iff_at key row.0,
  )
