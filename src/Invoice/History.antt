-- ===== src/Invoice/History.antt =====
-- What an invoice of linkmint-backend/invoice-subscription keeps over all changes of its lifecycle:
-- its terms, its rank, its final states and its one event of payment.
use paylink.Prelude.{
  ℕ, ◌⊎◌, inl, inr, ◌≤◌, String, ◌≡◌, inl, inr, refl, some, arith, ◌==◌, string_eq, eq_iff_at,
  lookup, lookup-insert, Bool-cases, ◌∙◌, sym, subst,
}
use paylink.Invoice.Model.{InvoiceStatus, draft, opened, paid, void, overdue}
use paylink.Invoice.Service.{InvoiceRow, InvoiceEvent, InvoiceDb}
use paylink.Invoice.Lifecycle.{
  Edge, finalizing, voiding, paying, expiring, Step, adding, changing, Steps, here, next,
}

-- How far an invoice is in its life.
abbrev pub rank : InvoiceStatus → ℕ
rank draft = 0
rank opened = 1
rank overdue = 2
rank paid = 3
rank void = 3

-- A later state of the same invoice: what was agreed stays, the status only moves on, and the two
-- final states stay as they are.
pub record IsLater (row row' : InvoiceRow) : Type 0 where
  pub same_id : row'.invoice_id ≡ row.invoice_id
  pub same_merchant : row'.merchant_id ≡ row.merchant_id
  pub same_payee : row'.payee_addr ≡ row.payee_addr
  pub same_currency : row'.currency ≡ row.currency
  pub same_total : row'.total ≡ row.total
  pub same_due : row'.due_at ≡ row.due_at
  pub onward : rank row.status ≤ rank row'.status
  pub final : (rank row.status ≤ 2) ⊎ (row' ≡ row)

IsLater-refl : (row : InvoiceRow) → IsLater row row
IsLater-refl row = record {
  same_id = refl;
  same_merchant = refl;
  same_payee = refl;
  same_currency = refl;
  same_total = refl;
  same_due = refl;
  onward = omega arith;
  final = inr refl;
}

IsLater-trans : {a b c : InvoiceRow} → IsLater a b → IsLater b c → IsLater a c
IsLater-trans p q = record {
  same_id = q.same_id ∙ p.same_id;
  same_merchant = q.same_merchant ∙ p.same_merchant;
  same_payee = q.same_payee ∙ p.same_payee;
  same_currency = q.same_currency ∙ p.same_currency;
  same_total = q.same_total ∙ p.same_total;
  same_due = q.same_due ∙ p.same_due;
  onward = omega (arith, p.onward, q.onward);
  final = elim p.final [
    | inl f ↦ inl f
    | inr f ↦ elim q.final [ inl g ↦ inl (omega (arith, g, p.onward)) | inr g ↦ inr (g ∙ f) ]
  ];
}

Edge-IsLater : {row row' : InvoiceRow} {e : InvoiceEvent} → Edge row row' e → IsLater row row'
Edge-IsLater (finalizing p s eq) = ground arith
Edge-IsLater (voiding a b eq) = ground arith
Edge-IsLater (paying now p s l eq) = ground arith
Edge-IsLater (expiring s eq) = ground arith

-- An invoice that is stored is still stored after any changes, in a later state.
unfoldable pub Kept : String → InvoiceRow → InvoiceDb → Type 0
Kept k row d = (row' : InvoiceRow) × (lookup k d.invoices ≡ some row') × IsLater row row'

Step-Kept :
    {d d' : InvoiceDb} (k : String) (row : InvoiceRow)
    → Step d d'
    → lookup k d.invoices ≡ some row
    → Kept k row d'
unfolding Kept
Step-Kept {d} {d'} k row (adding new lines absent fresh ok eq) h = subst (Kept k row) (sym eq) (
  row,
  lookup-insert new.invoice_id k new d.invoices
      ∙ ground (arith, absent, h, eq_iff_at new.invoice_id k),
  IsLater-refl row,
)
Step-Kept {d} {d'} k row (changing old new e found edge eq) h =
    elim (Bool-cases (old.invoice_id == k)) [
      | inl b ↦ subst (Kept k row) (sym eq) (
        new,
        lookup-insert old.invoice_id k new d.invoices ∙ ground (arith, b),
        subst (λ r. IsLater r new) (ground (arith, found, h, b, eq_iff_at old.invoice_id k))
            (Edge-IsLater edge),
      )
      | inr b ↦ subst (Kept k row) (sym eq) (
        row,
        lookup-insert old.invoice_id k new d.invoices ∙ ground (arith, b, h),
        IsLater-refl row,
      )
    ]

pub Steps-Kept :
    {d d' : InvoiceDb} (k : String) (row : InvoiceRow)
    → Steps d d'
    → lookup k d.invoices ≡ some row
    → Kept k row d'
unfolding Kept
Steps-Kept k row here h = (row, h, IsLater-refl row)
Steps-Kept k row (next steps step) h =
    let (mid, found, until) = Steps-Kept k row steps h in
    let (last, found', then_on) = Step-Kept k mid step found in
    (last, found', IsLater-trans until then_on)
