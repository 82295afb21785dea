-- ===== src/Pricing/Grouping.antt =====
-- The groups that linkmint-backend/fee-pricing-service makes of the accruals of a period.
use paylink.Prelude.{
  ℕ, ◌+◌, ◌≤◌, String, Bool, true, ◌&&◌, Option, List, [], ◌∷◌, select, All, All-append, All-select,
  All-sort_by, select-All, Distinct, Distinct-select, Distinct-sort_by, nat_eq, string_eq, ◌==◌,
  eq_iff_at, ◌≡◌, inl, inr, ◌∙◌, arith, Bool-cases, Option-cases,
}
use paylink.Pricing.Rates.{PricingDb}
use paylink.Pricing.Invoicing.{
  Group, put_group, group_rows, is_unbilled, in_order, unbilled_accruals,
}
use paylink.Pricing.Weights.{
  Row, when, sum_of, sum_of-append, count, IsOnly, Distinct-IsOnly, Distinct-count,
}
use paylink.Pricing.Stamps.{misfit}

abbrev pub total_count : ℕ → List Group → ℕ
total_count n [] = 0
total_count n (g ∷ groups) = count n g.rows + total_count n groups

abbrev pub GroupFits : (period : String) → Group → Type 0
GroupFits period g = sum_of (misfit g.merchant_id period g.currency) g.rows ≡ 0

abbrev pub GroupIn : List Row → Group → Type 0
GroupIn t g = All (IsOnly t) g.rows

-- a row that is billable in a period, for its own merchant and currency
abbrev pub RowFits : (period : String) → Row → Type 0
RowFits period r = misfit r.merchant_id period r.currency r ≡ 0

count-put_group :
    (n : ℕ) (r : Row) (groups : List Group)
    → total_count n (put_group r groups) ≡ when (r.id == n) 1 + total_count n groups
unfolding put_group
count-put_group n r [] = omega arith
count-put_group n r (g ∷ groups) =
    elim (Bool-cases (g.merchant_id == r.merchant_id && g.currency == r.currency)) [
      | inl e ↦ ground (arith, e, sum_of-append (λ x. when (x.id == n) 1) g.rows (r ∷ []))
      | inr e ↦ ground (arith, e, count-put_group n r groups)
    ]

GroupIn-put_group :
    (t : List Row) (r : Row) (groups : List Group)
    → IsOnly t r
    → All (GroupIn t) groups
    → All (GroupIn t) (put_group r groups)
unfolding put_group
GroupIn-put_group t r [] only h = ((only, tt), tt)
GroupIn-put_group t r (g ∷ groups) only h =
    elim (Bool-cases (g.merchant_id == r.merchant_id && g.currency == r.currency)) [
      | inl e ↦ rw e (All-append (IsOnly t) g.rows (r ∷ []) h.0 (only, tt), h.1)
      | inr e ↦ rw e (h.0, GroupIn-put_group t r groups only h.1)
    ]

GroupFits-put_group :
    (period : String) (r : Row) (groups : List Group)
    → RowFits period r
    → All (GroupFits period) groups
    → All (GroupFits period) (put_group r groups)
unfolding put_group
GroupFits-put_group period r [] fit h = ((omega (arith, fit)), tt)
GroupFits-put_group period r (g ∷ groups) fit h =
    elim (Bool-cases (g.merchant_id == r.merchant_id && g.currency == r.currency)) [
      | inl e ↦
          let m : g.merchant_id ≡ r.merchant_id =
            ground (arith, e, eq_iff_at g.merchant_id r.merchant_id) in
          let c : g.currency ≡ r.currency = ground (arith, e, eq_iff_at g.currency r.currency) in
          let here : misfit g.merchant_id period g.currency r ≡ 0 = rw (m, c) fit in
          rw e (
            (sum_of-append (misfit g.merchant_id period g.currency) g.rows (r ∷ [])
                ∙ omega (arith, h.0, here)),
            h.1,
          )
      | inr e ↦ rw e (h.0, GroupFits-put_group period r groups fit h.1)
    ]

-- Grouping keeps the number of rows with an identifier,
count-group_rows :
    (n : ℕ) (groups : List Group) (rows : List Row)
    → total_count n (group_rows groups rows) ≡ total_count n groups + count n rows
unfolding group_rows
count-group_rows n groups [] = omega arith
count-group_rows n groups (r ∷ rows) =
    omega (arith, count-group_rows n (put_group r groups) rows, count-put_group n r groups)

-- and what is said of each row.
group_rows_lem :
    (period : String) (t : List Row) (groups : List Group) (rows : List Row)
    → All (IsOnly t) rows
    → All (RowFits period) rows
    → All (GroupIn t) groups
    → All (GroupFits period) groups
    → All (GroupIn t) (group_rows groups rows) × All (GroupFits period) (group_rows groups rows)
unfolding group_rows
group_rows_lem period t groups [] only fit ins fits = (ins, fits)
group_rows_lem period t groups (r ∷ rows) only fit ins fits =
    group_rows_lem period t (put_group r groups) rows only.1 fit.1
      (GroupIn-put_group t r groups only.0 ins) (GroupFits-put_group period r groups fit.0 fits)

RowFits-of_unbilled :
    (period : String) (merchant_id : Option String) (r : Row)
    → is_unbilled period merchant_id r ≡ true
    → RowFits period r
RowFits-of_unbilled period merchant_id r h = elim (Option-cases r.invoice_id) [
  | inr (i, n) ↦ absurd (ground (arith, h, n))
  | inl n ↦ ground (
    arith,
    h,
    n,
    eq_iff_at r.period period,
    eq_iff_at r.merchant_id r.merchant_id,
    eq_iff_at r.currency r.currency,
  )
]

-- What holds of the groups that are to be billed.
pub record AreBillable (period : String) (t : List Row) (groups : List Group) : Type 0 where
  pub ins : All (GroupIn t) groups
  pub fits : All (GroupFits period) groups
  pub once : (n : ℕ) → total_count n groups ≤ 1

pub group_rows-AreBillable :
    (precedes : String → String → Bool) (period : String) (merchant_id : Option String)
    (d : PricingDb)
    → Distinct (λ r. r.id) d.accruals
    → AreBillable period d.accruals
        (group_rows [] (unbilled_accruals precedes period merchant_id d))
group_rows-AreBillable precedes period merchant_id d distinct =
    let p = is_unbilled period merchant_id in
    let rows = unbilled_accruals precedes period merchant_id d in
    let chosen = select p d.accruals in
    let unique : Distinct (λ r. r.id) rows =
      Distinct-sort_by (λ r. r.id) (in_order precedes) chosen
        (Distinct-select (λ r. r.id) p d.accruals distinct) in
    let only : All (IsOnly d.accruals) rows =
      All-sort_by (in_order precedes) (IsOnly d.accruals) chosen
        (All-select (IsOnly d.accruals) p d.accruals (Distinct-IsOnly d.accruals distinct)) in
    let fit : All (RowFits period) rows =
      All-sort_by (in_order precedes) (RowFits period) chosen
        (select-All (RowFits period) p (RowFits-of_unbilled period merchant_id) d.accruals) in
    let both = group_rows_lem period d.accruals [] rows only fit tt tt in
    record {
      ins = both.0;
      fits = both.1;
      once = λ n. omega (arith, count-group_rows n [] rows, Distinct-count n rows unique);
    }
