-- ===== src/Prelude/Sorting.antt =====
-- `ORDER BY`: insertion sort by a Boolean comparison, `before a b` when `a` may stand before `b`.
use Prim.Native.Nat.{ℕ, zero, suc, ◌+◌}
use mathlib.Core.Path.{◌≡◌, refl, ◌∙◌}
use mathlib.Core.Logic.{inl, inr}
use mathlib.Core.Bool.{Bool, true, false}
use mathlib.Core.List.{List, [], ◌∷◌, ◌++◌}
use native.Mathlib.Omega.{arith}
use paylink.Prelude.Tests.{if◌then◌else◌, Bool-cases}
use paylink.Prelude.Lists.{
  All, All-append, All-select, All-take, drop, length, length-append, select, select-append, take,
}

module _ {ℓ} {A : Type ℓ} (before : A → A → Bool) where
  unfoldable pub insert_by : A → List A → List A
  insert_by x [] = x ∷ []
  insert_by x (y ∷ ys) = let rest = insert_by x ys in if before x y then x ∷ y ∷ ys else y ∷ rest

  unfoldable pub sort_by : List A → List A
  unfolding insert_by
  sort_by [] = []
  sort_by (x ∷ xs) = insert_by x (sort_by xs)

  -- Every item may stand before each later one.
  abbrev pub IsSortedBy : List A → Type ℓ
  IsSortedBy [] = Unit
  IsSortedBy (x ∷ xs) = All (λ y. before x y ≡ true) xs × IsSortedBy xs

  -- Sorting leaves a sorted list as it is.
  pub sort_by-of_IsSortedBy : (xs : List A) → IsSortedBy xs → sort_by xs ≡ xs
  unfolding sort_by
  sort_by-of_IsSortedBy [] h = refl
  sort_by-of_IsSortedBy (x ∷ []) h = refl
  sort_by-of_IsSortedBy (x ∷ y ∷ ys) h =
      rw (sort_by-of_IsSortedBy (y ∷ ys) h.1, insert_by) (ground arith)

  pub IsSortedBy-append :
      (xs ys : List A)
      → IsSortedBy xs
      → IsSortedBy ys
      → All (λ x. All (λ y. before x y ≡ true) ys) xs
      → IsSortedBy (xs ++ ys)
  IsSortedBy-append [] ys hx hy cross = hy
  IsSortedBy-append (x ∷ xs) ys hx hy cross =
      (All-append _ xs ys hx.0 cross.0, IsSortedBy-append xs ys hx.1 hy cross.1)

  pub IsSortedBy-select : (p : A → Bool) (xs : List A) → IsSortedBy xs → IsSortedBy (select p xs)
  IsSortedBy-select p [] h = tt
  IsSortedBy-select p (x ∷ xs) h = elim (Bool-cases (p x)) [
    | inl e ↦ rw e (All-select _ p xs h.0, IsSortedBy-select p xs h.1)
    | inr e ↦ rw e (IsSortedBy-select p xs h.1)
  ]

-- How many items pass a test.
abbrev pub how_many {ℓ} : {A : Type ℓ} → (A → Bool) → List A → ℕ
how_many q xs = length (select q xs)

module _ {ℓ} {A : Type ℓ} (q : A → Bool) where
  pub how_many-append : (xs ys : List A) → how_many q (xs ++ ys) ≡ how_many q xs + how_many q ys
  how_many-append xs ys = rw (select-append q xs ys) (length-append (select q xs) (select q ys))

  how_many-insert_by :
      (before : A → A → Bool) (x : A) (xs : List A)
      → how_many q (insert_by before x xs) ≡ how_many q (x ∷ xs)
  unfolding insert_by
  how_many-insert_by before x [] = refl
  how_many-insert_by before x (y ∷ ys) = ground (arith, how_many-insert_by before x ys)

  -- Sorting keeps how many items pass.
  pub how_many-sort_by :
      (before : A → A → Bool) (xs : List A) → how_many q (sort_by before xs) ≡ how_many q xs
  unfolding sort_by
  how_many-sort_by before [] = refl
  how_many-sort_by before (x ∷ xs) =
      let rest = how_many-sort_by before xs in
      how_many-insert_by before x (sort_by before xs) ∙ ground (arith, rest)

module _ {ℓ κ} {A : Type ℓ} (before : A → A → Bool) (P : A → Type κ) where
  pub All-insert_by : (x : A) (xs : List A) → P x → All P xs → All P (insert_by before x xs)
  unfolding insert_by
  All-insert_by x [] hx h = (hx, tt)
  All-insert_by x (y ∷ ys) hx h = elim (Bool-cases (before x y)) [
    | inl e ↦ rw e (hx, h)
    | inr e ↦ rw e (h.0, All-insert_by x ys hx h.1)
  ]

  -- Sorting loses and invents nothing, for what every item has.
  pub All-sort_by : (xs : List A) → All P xs → All P (sort_by before xs)
  unfolding sort_by
  All-sort_by [] h = tt
  All-sort_by (x ∷ xs) h = All-insert_by x (sort_by before xs) h.0 (All-sort_by xs h.1)

module _ {ℓ} {A : Type ℓ} (before : A → A → Bool) where
  pub IsSortedBy-take : (n : ℕ) (xs : List A) → IsSortedBy before xs → IsSortedBy before (take n xs)
  IsSortedBy-take zero xs h = tt
  IsSortedBy-take (suc n) [] h = tt
  IsSortedBy-take (suc n) (x ∷ xs) h = (All-take _ n xs h.0, IsSortedBy-take n xs h.1)

  pub IsSortedBy-drop : (n : ℕ) (xs : List A) → IsSortedBy before xs → IsSortedBy before (drop n xs)
  IsSortedBy-drop zero xs h = h
  IsSortedBy-drop (suc n) [] h = tt
  IsSortedBy-drop (suc n) (x ∷ xs) h = IsSortedBy-drop n xs h.1

  -- `before` is a total preorder.
  pub record IsOrder : Type ℓ where
    pub total : (a b : A) → before a b ≡ false → before b a ≡ true
    pub trans : (a b c : A) → before a b ≡ true → before b c ≡ true → before a c ≡ true

  All-before :
      (order : IsOrder) (x y : A) (ys : List A)
      → before x y ≡ true
      → All (λ z. before y z ≡ true) ys
      → All (λ z. before x z ≡ true) ys
  All-before order x y [] e h = tt
  All-before order x y (z ∷ ys) e h = (order.trans x y z e h.0, All-before order x y ys e h.1)

  insert_by-IsSortedBy :
      (order : IsOrder) (x : A) (xs : List A)
      → IsSortedBy before xs
      → IsSortedBy before (insert_by before x xs)
  unfolding insert_by
  insert_by-IsSortedBy order x [] h = (tt, tt)
  insert_by-IsSortedBy order x (y ∷ ys) h = elim (Bool-cases (before x y)) [
    | inl e ↦ rw e ((e, All-before order x y ys e h.0), h)
    | inr e ↦ rw e (
      All-insert_by before (λ z. before y z ≡ true) x ys (order.total x y e) h.0,
      insert_by-IsSortedBy order x ys h.1,
    )
  ]

  -- The result of a sort is sorted.
  pub sort_by-IsSortedBy : (order : IsOrder) (xs : List A) → IsSortedBy before (sort_by before xs)
  unfolding sort_by
  sort_by-IsSortedBy order [] = tt
  sort_by-IsSortedBy order (x ∷ xs) =
      insert_by-IsSortedBy order x (sort_by before xs) (sort_by-IsSortedBy order xs)
