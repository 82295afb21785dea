-- ===== src/Invoice/Payments.antt =====
-- The events of payment of linkmint-backend/invoice-subscription against the paid invoices.
use paylink.Prelude.{
  ℕ, ◌+◌, String, ◌≡◌, Bool, false, none, some, List, [], ◌∷◌, ◌++◌, arith, if◌then◌else◌, ◌==◌,
  string_eq, eq_iff_at, lookup, lookup-insert, ◌∙◌, length, select,
}
use paylink.Invoice.Model.{is_paid}
use paylink.Invoice.Service.{InvoiceRow, InvoiceEvent, invoice_created, invoice_paid, InvoiceDb}
use paylink.Invoice.Lifecycle.{
  Edge, finalizing, voiding, paying, expiring, Step, adding, changing, Steps, here, next,
}

abbrev reports_payment : String → InvoiceEvent → Bool
reports_payment k (invoice_paid id _ _ _ _) = id == k
reports_payment k _ = false

-- the events of payment of one invoice
unfoldable pub payments : String → List InvoiceEvent → ℕ
payments k events = length (select (reports_payment k) events)

unfoldable pub stands_paid : String → InvoiceDb → Bool
stands_paid k d = elim (lookup k d.invoices) [ none ↦ false | some row ↦ is_paid row.status ]

payments-snoc :
    (k : String) (events : List InvoiceEvent) (e : InvoiceEvent)
    → payments k (events ++ e ∷ []) ≡ payments k events + (if reports_payment k e then 1 else 0)
unfolding payments
payments-snoc k [] e = ground arith
payments-snoc k (x ∷ events) e = ground (arith, payments-snoc k events e)

abbrev pub bit : Bool → ℕ
bit b = if b then 1 else 0

Edge-reports :
    {row row' : InvoiceRow} {e : InvoiceEvent}
    → Edge row row' e
    → (k : String)
    → bit (reports_payment k e) + (if row.invoice_id == k then bit (is_paid row.status) else 0)
      ≡ (if row.invoice_id == k then bit (is_paid row'.status) else 0)
Edge-reports (finalizing p s eq) k = ground arith
Edge-reports (voiding a b eq) k = ground arith
Edge-reports (paying now p s l eq) k = ground arith
Edge-reports (expiring s eq) k = ground arith

-- An event of payment for every paid invoice, and no other.
abbrev pub IsReported : InvoiceDb → Type 0
IsReported d = (k : String) → payments k d.events ≡ bit (stands_paid k d)

Step-IsReported : {d d' : InvoiceDb} → Step d d' → IsReported d → IsReported d'
unfolding stands_paid
Step-IsReported {d} {d'} (adding new lines absent fresh ok eq) h k = rw eq (
    payments-snoc k d.events (invoice_created new.invoice_id new.merchant_id new.currency new.total)
    ∙ rw (stands_paid, lookup-insert new.invoice_id k new d.invoices)
        (ground (arith, h k, absent, fresh, eq_iff_at new.invoice_id k)))
Step-IsReported {d} {d'} (changing old new e found edge eq) h k = rw eq (
    payments-snoc k d.events e
    ∙ rw (stands_paid, lookup-insert old.invoice_id k new d.invoices)
        (ground (arith, h k, found, Edge-reports edge k, eq_iff_at old.invoice_id k)))

pub Steps-IsReported : {d d' : InvoiceDb} → Steps d d' → IsReported d → IsReported d'
Steps-IsReported here h = h
Steps-IsReported (next steps step) h = Step-IsReported step (Steps-IsReported steps h)
