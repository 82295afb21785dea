-- ===== src/Invoice/Lifecycle.antt =====
-- The lifecycle of an invoice as an abstract state machine over the tables of
-- linkmint-backend/invoice-subscription: which changes a row may undergo, each with the one event
-- that reports it, and what holds of every table that such changes lead to.
use paylink.Prelude.{
  All-insert, All-lookup, is_some, ℕ, ◌+◌, String, ◌≡◌, refl, true, false, ◌||◌, ◌&&◌, not, none,
  some, List, [], ◌∷◌, ◌++◌, arith, string_eq, lookup, insert, IsDict, insert-IsDict, All, subst,
  sym,
}
use paylink.Invoice.Model.{
  draft, opened, paid, void, overdue, is_paid, is_void, is_payable, is_draft,
}
use paylink.Invoice.Service.{
  InvoiceRow, InvoiceLineRow, InvoiceEvent, invoice_created, invoice_finalized, invoice_voided,
  invoice_paid, invoice_overdue, InvoiceDb,
}

-- One change of a row, with its event.
pub data Edge (row row' : InvoiceRow) : InvoiceEvent → Type 0 where
  finalizing :
      (pl_id : String)
      → row.status ≡ draft
      → row' ≡ record row { pl_id = some pl_id; status = opened }
      → Edge row row'
          (invoice_finalized row.invoice_id pl_id row.merchant_id row.currency row.total)
  voiding :
      is_paid row.status ≡ false
      → is_void row.status ≡ false
      → row' ≡ record row { status = void }
      → Edge row row' (invoice_voided row.invoice_id row.merchant_id)
  paying :
      (now : ℕ) (pl_id : String)
      → is_payable row.status ≡ true
      → row.pl_id ≡ some pl_id
      → row' ≡ record row { status = paid; paid_at = some now }
      → Edge row row' (invoice_paid row.invoice_id pl_id row.merchant_id row.currency row.total)
  expiring :
      row.status ≡ opened
      → row' ≡ record row { status = overdue }
      → Edge row row'
          (invoice_overdue row.invoice_id row.merchant_id row.currency row.due_at row.total)

-- What every row keeps to: it is paid exactly when it has a time of payment, a draft has no PayLink,
-- one that can be or was paid has one, and the total is the sum.
pub record IsSound (row : InvoiceRow) : Type 0 where
  pub summed : row.total ≡ row.subtotal + row.tax
  pub settled : is_some row.paid_at ≡ is_paid row.status
  pub unlinked : is_draft row.status && is_some row.pl_id ≡ false
  pub linked : (is_payable row.status || is_paid row.status) && not (is_some row.pl_id) ≡ false

Edge-IsSound :
    {row row' : InvoiceRow} {e : InvoiceEvent} → Edge row row' e → IsSound row → IsSound row'
Edge-IsSound (finalizing p s eq) h = ground arith
Edge-IsSound (voiding a b eq) h = ground arith
Edge-IsSound (paying now p s l eq) h = ground arith
Edge-IsSound (expiring s eq) h = ground arith

pub Edge-keeps_id :
    {row row' : InvoiceRow} {e : InvoiceEvent} → Edge row row' e → row'.invoice_id ≡ row.invoice_id
Edge-keeps_id (finalizing p s eq) = rw eq refl
Edge-keeps_id (voiding a b eq) = rw eq refl
Edge-keeps_id (paying now p s l eq) = rw eq refl
Edge-keeps_id (expiring s eq) = rw eq refl

-- A new draft, or a change of the row that stands under an identifier.
pub data Step (d d' : InvoiceDb) : Type 0 where
  adding :
      (row : InvoiceRow) (lines : List InvoiceLineRow)
      → lookup row.invoice_id d.invoices ≡ none
      → row.status ≡ draft
      → IsSound row
      → d' ≡ record {
        invoices = insert row.invoice_id row d.invoices;
        lines = d.lines ++ lines;
        events =
            d.events ++ invoice_created row.invoice_id row.merchant_id row.currency row.total ∷ [];
      }
      → Step d d'
  changing :
      (row row' : InvoiceRow) (e : InvoiceEvent)
      → lookup row.invoice_id d.invoices ≡ some row
      → Edge row row' e
      → d'
        ≡ record d { invoices = insert row.invoice_id row' d.invoices; events = d.events ++ e ∷ [] }
      → Step d d'

pub data Steps (d : InvoiceDb) : InvoiceDb → Type 0 where
  here : Steps d d
  next : {d' d'' : InvoiceDb} → Steps d d' → Step d' d'' → Steps d d''

pub Steps-trans : {c d e : InvoiceDb} → Steps c d → Steps d e → Steps c e
Steps-trans s here = s
Steps-trans s (next t st) = next (Steps-trans s t) st

abbrev pub StandsUnder : String × InvoiceRow → Type 0
StandsUnder entry = entry.1.invoice_id ≡ entry.0

abbrev pub HasSoundRow : String × InvoiceRow → Type 0
HasSoundRow entry = IsSound entry.1

pub record IsValid (d : InvoiceDb) : Type 0 where
  pub dict : IsDict d.invoices
  pub keyed : All StandsUnder d.invoices
  pub sound : All HasSoundRow d.invoices

Step-IsValid : {d d' : InvoiceDb} → Step d d' → IsValid d → IsValid d'
Step-IsValid {d} {d'} (adding row lines absent new ok eq) v = subst IsValid (sym eq) (record {
  dict = insert-IsDict row.invoice_id row d.invoices v.dict;
  keyed = All-insert StandsUnder row.invoice_id row d.invoices refl v.keyed;
  sound = All-insert HasSoundRow row.invoice_id row d.invoices ok v.sound;
})
Step-IsValid {d} {d'} (changing row row' e found edge eq) v = subst IsValid (sym eq) (record {
  dict = insert-IsDict row.invoice_id row' d.invoices v.dict;
  keyed = All-insert StandsUnder row.invoice_id row' d.invoices (Edge-keeps_id edge) v.keyed;
  sound =
      All-insert HasSoundRow row.invoice_id row' d.invoices
        (Edge-IsSound edge (All-lookup HasSoundRow row.invoice_id row d.invoices v.sound found))
        v.sound;
})

pub Steps-IsValid : {d d' : InvoiceDb} → Steps d d' → IsValid d → IsValid d'
Steps-IsValid here v = v
Steps-IsValid (next steps step) v = Step-IsValid step (Steps-IsValid steps v)
