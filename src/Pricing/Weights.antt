-- ===== src/Pricing/Weights.antt =====
-- Sums over the accruals of linkmint-backend/fee-pricing-service, by which the rows that an invoice
-- is stamped on are measured.
use paylink.Prelude.{
  ℕ, ◌+◌, ◌≤◌, Bool, true, false, List, [], ◌∷◌, ◌++◌, All, Distinct, Differs, nat_eq, string_eq,
  ◌==◌, eq_iff_at, ◌≡◌, inl, inr, refl, sym, arith, Bool-cases,
}
use paylink.Pricing.Rates.{PlatformFeeAccrualRow}
use paylink.Pricing.Invoicing.{has_id}

abbrev pub Row : Type 0
Row = PlatformFeeAccrualRow

abbrev pub when : Bool → ℕ → ℕ
when true n = n
when false n = 0

abbrev pub sum_of : (Row → ℕ) → List Row → ℕ
sum_of w [] = 0
sum_of w (r ∷ rows) = w r + sum_of w rows

abbrev pub count : ℕ → List Row → ℕ
count n rows = sum_of (λ r. when (r.id == n) 1) rows

-- What a table has under the identifier of a row is this row.
abbrev pub IsOnly : List Row → Row → Type 0
IsOnly t x = (w : Row → ℕ) → sum_of (λ r. when (x.id == r.id) (w r)) t ≡ w x

pub sum_of-append :
    (w : Row → ℕ) (xs ys : List Row) → sum_of w (xs ++ ys) ≡ sum_of w xs + sum_of w ys
sum_of-append w [] ys = omega arith
sum_of-append w (x ∷ xs) ys = omega (arith, sum_of-append w xs ys)

sum_of-other :
    (w : Row → ℕ) (n : ℕ) (t : List Row)
    → All (Differs (λ r. r.id) n) t
    → sum_of (λ r. when (n == r.id) (w r)) t ≡ 0
sum_of-other w n [] h = refl
sum_of-other w n (r ∷ rows) h = elim (Bool-cases (n == r.id)) [
  | inl e ↦ absurd (h.0 ((eq_iff_at n r.id).0 e))
  | inr e ↦ ground (arith, e, sum_of-other w n rows h.1)
]

IsOnly-cons :
    (y : Row) (ys zs : List Row)
    → All (Differs (λ r. r.id) y.id) zs
    → All (IsOnly ys) zs
    → All (IsOnly (y ∷ ys)) zs
IsOnly-cons y ys [] h only = tt
IsOnly-cons y ys (z ∷ zs) h only = (
  λ w. elim (Bool-cases (z.id == y.id)) [
    | inl e ↦ absurd (h.0 (sym ((eq_iff_at z.id y.id).0 e)))
    | inr e ↦ ground (arith, e, only.0 w)
  ],
  IsOnly-cons y ys zs h.1 only.1,
)

-- Each row of a table is the only one with its identifier.
pub Distinct-IsOnly : (t : List Row) → Distinct (λ r. r.id) t → All (IsOnly t) t
Distinct-IsOnly [] h = tt
Distinct-IsOnly (y ∷ ys) h = (
  (λ w. ground (arith, eq_iff_at y.id y.id, sum_of-other w y.id ys h.0)),
  IsOnly-cons y ys ys h.0 (Distinct-IsOnly ys h.1),
)

count-other : (n : ℕ) (t : List Row) → All (Differs (λ r. r.id) n) t → count n t ≡ 0
count-other n [] h = refl
count-other n (r ∷ rows) h = elim (Bool-cases (r.id == n)) [
  | inl e ↦ absurd (h.0 (sym ((eq_iff_at r.id n).0 e)))
  | inr e ↦ ground (arith, e, count-other n rows h.1)
]

pub Distinct-count : (n : ℕ) (t : List Row) → Distinct (λ r. r.id) t → count n t ≤ 1
Distinct-count n [] h = omega arith
Distinct-count n (r ∷ rows) h = elim (Bool-cases (r.id == n)) [
  | inl e ↦
      let same : r.id ≡ n = (eq_iff_at r.id n).0 e in
      ground (arith, e, count-other r.id rows h.0, same)
  | inr e ↦ ground (arith, e, Distinct-count n rows h.1)
]

-- A row whose identifier is in no row of a list.
pub has_id-none : (g : List Row) (r : Row) → count r.id g ≡ 0 → has_id g r ≡ false
has_id-none [] r h = refl
has_id-none (x ∷ g) r h = elim (Bool-cases (x.id == r.id)) [
  | inl e ↦ absurd (ground (arith, e, h))
  | inr e ↦ ground (arith, e, has_id-none g r (ground (arith, e, h)))
]

sum_of-split :
    (f a b : Row → ℕ) (t : List Row)
    → ((r : Row) → f r ≡ a r + b r)
    → sum_of f t ≡ sum_of a t + sum_of b t
sum_of-split f a b [] h = refl
sum_of-split f a b (r ∷ rows) h = omega (arith, h r, sum_of-split f a b rows h)

sum_of-nothing : (t : List Row) → sum_of (λ r. 0) t ≡ 0
sum_of-nothing [] = refl
sum_of-nothing (r ∷ rows) = omega (arith, sum_of-nothing rows)

-- The rows of a table that some of its rows name are these rows.
pub sum_of-has_id :
    (w : Row → ℕ) (t g : List Row)
    → All (IsOnly t) g
    → ((n : ℕ) → count n g ≤ 1)
    → sum_of (λ r. when (has_id g r) (w r)) t ≡ sum_of w g
sum_of-has_id w t [] only once = sum_of-nothing t
sum_of-has_id w t (x ∷ g) only once =
    let apart : (r : Row)
        → when (has_id (x ∷ g) r) (w r) ≡ when (x.id == r.id) (w r) + when (has_id g r) (w r) =
      λ r. elim (Bool-cases (x.id == r.id)) [
        | inr e ↦ ground (arith, e)
        | inl e ↦ ground (arith, e, has_id-none g r (ground (arith, e, once r.id)))
      ] in
    let rest = sum_of-has_id w t g only.1 (λ n. omega (arith, once n)) in
    omega (
      arith,
      sum_of-split _ (λ r. when (x.id == r.id) (w r)) (λ r. when (has_id g r) (w r)) t apart,
      only.0 w,
      rest,
    )
