-- ===== src/Pricing/Stamps.antt =====
-- What an invoice of linkmint-backend/fee-pricing-service changes of the accruals: the rows that it
-- is stamped on, and nothing of the rows of other invoices.
use paylink.Prelude.{
  ℕ, ◌+◌, ◌≤◌, String, Bool, true, false, ◌&&◌, not, Option, none, some, is_some, List, [], ◌∷◌,
  map, All, Distinct, Differs, nat_eq, string_eq, ◌==◌, eq_iff_at, ◌≡◌, inl, inr, refl, ◌∙◌, arith,
  Bool-cases, Option-cases,
}
use paylink.Pricing.Invoicing.{has_id, mark}
use paylink.Pricing.Weights.{Row, when, sum_of, count, IsOnly, has_id-none}

-- whether a row is billed by an invoice
abbrev pub is_on : String → Row → Bool
is_on id row = elim row.invoice_id [ none ↦ false | some other ↦ other == id ]

-- the sum over the rows that an invoice is stamped on
abbrev pub stamped : (Row → ℕ) → String → List Row → ℕ
stamped w id rows = sum_of (λ r. when (is_on id r) (w r)) rows

abbrev pub amount_of : Row → ℕ
amount_of r = r.amount

abbrev pub one : Row → ℕ
one r = 1

-- whether an invoice for a merchant, a period and a currency may take a row
abbrev pub may_take : (merchant_id period currency : String) → Row → Bool
may_take merchant_id period currency row =
    row.merchant_id == merchant_id
    && row.period == period
    && row.currency == currency
    && not (is_some row.invoice_id)

abbrev pub misfit : (merchant_id period currency : String) → Row → ℕ
misfit merchant_id period currency row = when (not (may_take merchant_id period currency row)) 1

module _ (w : Row → ℕ)
    (same : (r : Row) (i : Option String) → w (record r { invoice_id = i }) ≡ w r) where
  -- A new invoice is stamped on the rows that it names.
  pub stamped-new :
      (g : List Row) (id : String) (t : List Row)
      → All (λ r. is_on id r ≡ false) t
      → stamped w id (map (mark g id) t) ≡ sum_of (λ r. when (has_id g r) (w r)) t
  stamped-new g id [] h = refl
  stamped-new g id (r ∷ t) h = elim (Bool-cases (has_id g r)) [
    | inl e ↦ ground (arith, e, eq_iff_at id id, same r (some id), stamped-new g id t h.1)
    | inr e ↦ ground (arith, e, h.0, stamped-new g id t h.1)
  ]

  -- It takes nothing from another invoice.
  pub stamped-old :
      (g : List Row) (id other m p c : String) (t : List Row)
      → (id == other) ≡ false
      → sum_of (λ r. when (has_id g r) (misfit m p c r)) t ≡ 0
      → stamped w other (map (mark g id) t) ≡ stamped w other t
  stamped-old g id other m p c [] d h = refl
  stamped-old g id other m p c (r ∷ t) d h = elim (Bool-cases (has_id g r)) [
    | inr e ↦ ground (arith, e, stamped-old g id other m p c t d (ground (arith, e, h)))
    | inl e ↦ elim (Bool-cases (may_take m p c r)) [
      | inr f ↦ absurd (ground (arith, e, f, h))
      | inl f ↦ elim (Option-cases r.invoice_id) [
        | inl n ↦
            ground (arith, e, n, d, stamped-old g id other m p c t d (ground (arith, e, f, h)))
        | inr (i, n) ↦ absurd (ground (arith, f, n))
      ]
    ]
  ]

-- What an invoice says of each row it is stamped on.
abbrev pub Fits : (id merchant_id period currency : String) → Row → Type 0
Fits id m p c r = is_on id r ≡ true → (r.merchant_id ≡ m) × (r.period ≡ p) × (r.currency ≡ c)

pub Fits-new :
    (g : List Row) (id m p c : String) (t : List Row)
    → All (λ r. is_on id r ≡ false) t
    → sum_of (λ r. when (has_id g r) (misfit m p c r)) t ≡ 0
    → All (Fits id m p c) (map (mark g id) t)
Fits-new g id m p c [] h z = tt
Fits-new g id m p c (r ∷ t) h z = elim (Bool-cases (has_id g r)) [
  | inr e ↦ (
    (λ on. absurd (ground (arith, e, h.0, on))),
    Fits-new g id m p c t h.1 (ground (arith, e, z)),
  )
  | inl e ↦ elim (Bool-cases (may_take m p c r)) [
    | inr f ↦ absurd (ground (arith, e, f, z))
    | inl f ↦ (
      (λ on.
          ground
            (arith, e, f, eq_iff_at r.merchant_id m, eq_iff_at r.period p, eq_iff_at r.currency c)),
      Fits-new g id m p c t h.1 (ground (arith, e, f, z)),
    )
  ]
]

pub Fits-old :
    (g : List Row) (id other m p c : String) (t : List Row)
    → (id == other) ≡ false
    → All (Fits other m p c) t
    → All (Fits other m p c) (map (mark g id) t)
Fits-old g id other m p c [] d h = tt
Fits-old g id other m p c (r ∷ t) d h = elim (Bool-cases (has_id g r)) [
  | inr e ↦ rw e (h.0, Fits-old g id other m p c t d h.1)
  | inl e ↦ rw e ((λ on. absurd (ground (arith, d, on))), Fits-old g id other m p c t d h.1)
]

-- Stamping other rows leaves a row the only one with its identifier.
IsOnly-mark :
    (g : List Row) (id : String) (t : List Row) (x : Row)
    → count x.id g ≡ 0
    → (w : Row → ℕ)
    → sum_of (λ r. when (x.id == r.id) (w r)) (map (mark g id) t)
      ≡ sum_of (λ r. when (x.id == r.id) (w r)) t
IsOnly-mark g id [] x none_of w = refl
IsOnly-mark g id (r ∷ t) x none_of w = elim (Bool-cases (has_id g r)) [
  | inr e ↦ ground (arith, e, IsOnly-mark g id t x none_of w)
  | inl e ↦ elim (Bool-cases (x.id == r.id)) [
    | inr f ↦ ground (arith, e, f, IsOnly-mark g id t x none_of w)
    | inl f ↦
        let same : x.id ≡ r.id = (eq_iff_at x.id r.id).0 f in
        absurd (ground (arith, e, has_id-none g r (ground (arith, none_of, same))))
  ]
]

-- The rows of a group that shares no identifier with the stamped ones.
pub All-IsOnly-mark :
    (g : List Row) (id : String) (t h : List Row)
    → ((n : ℕ) → count n g + count n h ≤ 1)
    → All (IsOnly t) h
    → All (IsOnly (map (mark g id) t)) h
All-IsOnly-mark g id t [] apart only = tt
All-IsOnly-mark g id t (x ∷ h) apart only = (
  (λ w. IsOnly-mark g id t x (ground (arith, apart x.id, eq_iff_at x.id x.id)) w ∙ only.0 w),
  All-IsOnly-mark g id t h (λ n. omega (arith, apart n)) only.1,
)

-- Stamping changes no identifier.
Differs-mark :
    (n : ℕ) (g : List Row) (id : String) (t : List Row)
    → All (Differs (λ r. r.id) n) t
    → All (Differs (λ r. r.id) n) (map (mark g id) t)
Differs-mark n g id [] h = tt
Differs-mark n g id (r ∷ t) h = elim (Bool-cases (has_id g r)) [
  | inl e ↦ rw e (h.0, Differs-mark n g id t h.1)
  | inr e ↦ rw e (h.0, Differs-mark n g id t h.1)
]

pub Distinct-mark :
    (g : List Row) (id : String) (t : List Row)
    → Distinct (λ r. r.id) t
    → Distinct (λ r. r.id) (map (mark g id) t)
Distinct-mark g id [] h = tt
Distinct-mark g id (r ∷ t) h = elim (Bool-cases (has_id g r)) [
  | inl e ↦ rw e (Differs-mark r.id g id t h.0, Distinct-mark g id t h.1)
  | inr e ↦ rw e (Differs-mark r.id g id t h.0, Distinct-mark g id t h.1)
]

-- A row's stamp is the new one or its old one.
pub All-mark {ℓ} :
    (P Q : Row → Type ℓ) (g : List Row) (id : String)
    → ((r : Row) → P r → Q r)
    → ((r : Row) → P r → Q (record r { invoice_id = some id }))
    → (t : List Row) → All P t
    → All Q (map (mark g id) t)
All-mark P Q g id kept new [] h = tt
All-mark P Q g id kept new (r ∷ t) h = elim (Bool-cases (has_id g r)) [
  | inl e ↦ rw e (new r h.0, All-mark P Q g id kept new t h.1)
  | inr e ↦ rw e (kept r h.0, All-mark P Q g id kept new t h.1)
]
