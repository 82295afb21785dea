-- ===== src/Pricing/Books.antt =====
-- The books of linkmint-backend/fee-pricing-service: the invoices and the accruals that they bill.
use paylink.Prelude.{
  ℕ, suc, ◌≤◌, String, true, false, none, is_some, List, [], ◌∷◌, ◌++◌, map, All, All-map,
  All-append, Distinct, length, lookup, nat_eq, string_eq, ◌==◌, eq_iff_at, ◌≡◌, inl, inr, refl,
  sym, ◌∙◌, arith, Bool-cases,
}
use paylink.Pricing.Rates.{PlatformFeeInvoiceRow}
use paylink.Pricing.Invoicing.{Group, has_id, mark, fees_of, invoice_row}
use paylink.Pricing.Weights.{Row, when, sum_of, count, IsOnly, sum_of-has_id}
use paylink.Pricing.Stamps.{
  is_on, stamped, amount_of, one, misfit, Fits, stamped-new, stamped-old, Fits-new, Fits-old,
  Distinct-mark, All-mark,
}

abbrev pub Invoices : Type 0
Invoices = List (String × PlatformFeeInvoiceRow)

-- An invoice bills what it is stamped on, and these rows are its merchant's, of its period and
-- currency.
pub record IsBooked (t : List Row) (entry : String × PlatformFeeInvoiceRow) : Type 0 where
  pub total : stamped amount_of entry.0 t ≡ entry.1.total_fee
  pub lines : stamped one entry.0 t ≡ entry.1.line_count
  pub fits : All (Fits entry.0 entry.1.merchant_id entry.1.period entry.1.currency) t

abbrev pub IsKnown : Invoices → Row → Type 0
IsKnown invoices r = (id : String) → is_on id r ≡ true → is_some (lookup id invoices) ≡ true

pub record Books (t : List Row) (next : ℕ) (invoices : Invoices) : Type 0 where
  pub distinct : Distinct (λ r. r.id) t
  pub below : All (λ r. suc r.id ≤ next) t
  pub booked : All (IsBooked t) invoices
  pub known : All (IsKnown invoices) t

fees_of_sum : (g : List Row) → fees_of g ≡ sum_of amount_of g
fees_of_sum [] = refl
fees_of_sum (r ∷ g) = omega (arith, fees_of_sum g)

length_sum : (g : List Row) → length g ≡ sum_of one g
length_sum [] = refl
length_sum (r ∷ g) = omega (arith, length_sum g)

lookup-append_known :
    (id : String) (old new : Invoices)
    → is_some (lookup id old) ≡ true
    → is_some (lookup id (old ++ new)) ≡ true
unfolding lookup
lookup-append_known id [] new h = absurd (ground (arith, h))
lookup-append_known id (entry ∷ old) new h = elim (Bool-cases (entry.0 == id)) [
  | inl e ↦ ground (arith, e)
  | inr e ↦ ground (arith, e, lookup-append_known id old new (ground (arith, e, h)))
]

lookup-append_last :
    (id : String) (old : Invoices) (inv : PlatformFeeInvoiceRow)
    → is_some (lookup id (old ++ (id, inv) ∷ [])) ≡ true
unfolding lookup
lookup-append_last id [] inv = ground (arith, eq_iff_at id id)
lookup-append_last id (entry ∷ old) inv = ground (arith, lookup-append_last id old inv)

module _ (g : List Row) (id m p c : String) (t : List Row) where
  IsBooked-old :
      (invoices : Invoices)
      → lookup id invoices ≡ none
      → sum_of (λ r. when (has_id g r) (misfit m p c r)) t ≡ 0
      → All (IsBooked t) invoices
      → All (IsBooked (map (mark g id) t)) invoices
  unfolding lookup
  IsBooked-old [] fresh fit h = tt
  IsBooked-old ((other, inv) ∷ rest) fresh fit h =
      let apart : (id == other) ≡ false = elim (Bool-cases (id == other)) [
        | inr e ↦ e
        | inl e ↦ absurd (ground (arith, fresh, eq_iff_at id other, eq_iff_at other id, e))
      ] in
      (
        record {
          total = stamped-old amount_of (λ r i. refl) g id other m p c t apart fit ∙ h.0.total;
          lines = stamped-old one (λ r i. refl) g id other m p c t apart fit ∙ h.0.lines;
          fits = Fits-old g id other inv.merchant_id inv.period inv.currency t apart h.0.fits;
        },
        IsBooked-old rest (ground (arith, fresh)) fit h.1,
      )

module _ (period : String) (g : Group) (id : String) (t : List Row) (next : ℕ)
    (invoices : Invoices) where
  pub Books-bill :
      Books t next invoices
      → lookup id invoices ≡ none
      → All (IsOnly t) g.rows
      → ((n : ℕ) → count n g.rows ≤ 1)
      → sum_of (misfit g.merchant_id period g.currency) g.rows ≡ 0
      → Books (map (mark g.rows id) t) next (invoices ++ (id, invoice_row period g) ∷ [])
  Books-bill books fresh only once fit =
      let unused : All (λ r. is_on id r ≡ false) t =
        All-map (IsKnown invoices) (λ r. is_on id r ≡ false)
          (λ r known. elim (Bool-cases (is_on id r)) [
            | inr e ↦ e
            | inl e ↦ absurd (ground (arith, known id e, fresh))
          ])
          t books.known in
      let fitting = sum_of-has_id (misfit g.merchant_id period g.currency) t g.rows only once in
      record {
        distinct = Distinct-mark g.rows id t books.distinct;
        below =
            All-mark (λ r. suc r.id ≤ next) (λ r. suc r.id ≤ next) g.rows id (λ r h. h) (λ r h. h) t
              books.below;
        booked =
            All-append (IsBooked (map (mark g.rows id) t)) invoices
              ((id, invoice_row period g) ∷ [])
              (IsBooked-old g.rows id g.merchant_id period g.currency t invoices fresh
                (fitting ∙ fit) books.booked)
              (
                record {
                  total =
                      stamped-new amount_of (λ r i. refl) g.rows id t unused
                      ∙ sum_of-has_id amount_of t g.rows only once
                      ∙ sym (fees_of_sum g.rows);
                  lines =
                      stamped-new one (λ r i. refl) g.rows id t unused
                      ∙ sum_of-has_id one t g.rows only once
                      ∙ sym (length_sum g.rows);
                  fits =
                      Fits-new g.rows id g.merchant_id period g.currency t unused (fitting ∙ fit);
                },
                tt,
              );
        known =
            All-mark (IsKnown invoices) (IsKnown (invoices ++ (id, invoice_row period g) ∷ []))
              g.rows id (λ r h other on. lookup-append_known other invoices _ (h other on))
              (λ r h other on.
                rw (sym ((eq_iff_at id other).0 on))
                  (lookup-append_last id invoices (invoice_row period g)))
              t books.known;
      }

-- A new accrual is on no invoice.
module _ (t : List Row) (next : ℕ) (invoices : Invoices) (r : Row) where
  unstamped :
      (w : Row → ℕ) (id : String) (rows : List Row)
      → r.invoice_id ≡ none
      → stamped w id (rows ++ r ∷ []) ≡ stamped w id rows
  unstamped w id [] n = ground (arith, n)
  unstamped w id (x ∷ rows) n = omega (arith, unstamped w id rows n)

  IsBooked-add :
      (rows : Invoices)
      → r.invoice_id ≡ none
      → All (IsBooked t) rows
      → All (IsBooked (t ++ r ∷ [])) rows
  IsBooked-add [] n h = tt
  IsBooked-add ((id, inv) ∷ rows) n h = (
    record {
      total = unstamped amount_of id t n ∙ h.0.total;
      lines = unstamped one id t n ∙ h.0.lines;
      fits = All-append _ t (r ∷ []) h.0.fits ((λ on. absurd (ground (arith, n, on))), tt);
    },
    IsBooked-add rows n h.1,
  )

  Distinct-add :
      (rows : List Row)
      → All (λ x. suc x.id ≤ r.id) rows
      → Distinct (λ x. x.id) rows
      → Distinct (λ x. x.id) (rows ++ r ∷ [])
  Distinct-add [] low d = (tt, tt)
  Distinct-add (x ∷ rows) low d = (
    All-append _ rows (r ∷ []) d.0 ((λ e. omega (arith, low.0, e)), tt),
    Distinct-add rows low.1 d.1,
  )

  pub Books-add :
      r.id ≡ next
      → r.invoice_id ≡ none
      → Books t next invoices
      → Books (t ++ r ∷ []) (suc next) invoices
  Books-add here n books = record {
    distinct =
        Distinct-add t (All-map _ _ (λ x h. omega (arith, h, here)) t books.below) books.distinct;
    below =
        All-append _ t (r ∷ []) (All-map _ _ (λ x h. omega (arith, h)) t books.below)
          ((omega (arith, here)), tt);
    booked = IsBooked-add invoices n books.booked;
    known = All-append _ t (r ∷ []) books.known ((λ id on. absurd (ground (arith, n, on))), tt);
  }
