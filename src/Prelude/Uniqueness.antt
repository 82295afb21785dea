-- ===== src/Prelude/Uniqueness.antt =====
-- Lists no two items of which agree in a key, as the rows of a query are.
use mathlib.Core.Path.{sym}
use mathlib.Core.Logic.{◌≢◌, inl, inr}
use mathlib.Core.List.{List, [], ◌∷◌}
use mathlib.Core.Bool.{Bool}
use Prim.Native.Nat.{ℕ, zero, suc}
use paylink.Prelude.Tests.{Bool-cases}
use paylink.Prelude.Lists.{All, All-select, All-take, select, take}
use paylink.Prelude.Sorting.{insert_by, sort_by, All-insert_by, All-sort_by}

module _ {ℓ κ} {A : Type ℓ} {K : Type κ} (key : A → K) where
  -- the key of an item is not the one given
  abbrev pub Differs : K → A → Type κ
  Differs k a = k ≢ key a

  abbrev pub Distinct : List A → Type κ
  Distinct [] = Unit
  Distinct (x ∷ xs) = All (Differs (key x)) xs × Distinct xs

  pub Distinct-select : (p : A → Bool) (xs : List A) → Distinct xs → Distinct (select p xs)
  Distinct-select p [] h = tt
  Distinct-select p (x ∷ xs) h = elim (Bool-cases (p x)) [
    | inl e ↦ rw e (All-select (Differs (key x)) p xs h.0, Distinct-select p xs h.1)
    | inr e ↦ rw e (Distinct-select p xs h.1)
  ]

  pub Distinct-take : (n : ℕ) (xs : List A) → Distinct xs → Distinct (take n xs)
  Distinct-take zero xs h = tt
  Distinct-take (suc n) [] h = tt
  Distinct-take (suc n) (x ∷ xs) h = (All-take (Differs (key x)) n xs h.0, Distinct-take n xs h.1)

  module _ (before : A → A → Bool) where
    Distinct-insert_by :
        (x : A) (xs : List A)
        → All (Differs (key x)) xs
        → Distinct xs
        → Distinct (insert_by before x xs)
    unfolding insert_by
    Distinct-insert_by x [] h d = (tt, tt)
    Distinct-insert_by x (y ∷ ys) h d = elim (Bool-cases (before x y)) [
      | inl e ↦ rw e (h, d)
      | inr e ↦ rw e (
        All-insert_by before (Differs (key y)) x ys (λ same. h.0 (sym same)) d.0,
        Distinct-insert_by x ys h.1 d.1,
      )
    ]

    pub Distinct-sort_by : (xs : List A) → Distinct xs → Distinct (sort_by before xs)
    unfolding sort_by
    Distinct-sort_by [] h = tt
    Distinct-sort_by (x ∷ xs) h =
        Distinct-insert_by x (sort_by before xs) (All-sort_by before (Differs (key x)) xs h.0)
          (Distinct-sort_by xs h.1)
