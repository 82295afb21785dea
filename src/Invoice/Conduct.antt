-- ===== src/Invoice/Conduct.antt =====
-- How a call of app/domain/services.py of linkmint-backend/invoice-subscription goes: one that
-- raises changes nothing, one that succeeds makes changes of the lifecycle and publishes what it
-- stores in the outbox.
use paylink.Prelude.{
  String, ◌≡◌, refl, some, List, [], ◌∷◌, ◌++◌, string_eq, lookup, subst, sym, append-nil, insert,
  Result, ok, err,
}
use paylink.Invoice.Service.{InvoiceRow, InvoiceEvent, State, InvoiceError}
use paylink.Invoice.Lifecycle.{Steps, here, next, changing, Edge}

-- What a call may do to the state.
pub data Conduct {A : Type 0} (s : State) : Result InvoiceError A × State → Type 0 where
  refused :
      (e : InvoiceError) (s' : State)
      → s'.stored ≡ s.stored
      → s'.published ≡ s.published
      → Conduct s (err e, s')
  served :
      (a : A) (s' : State) (es : List InvoiceEvent)
      → Steps s.stored s'.stored
      → s'.stored.events ≡ s.stored.events ++ es
      → s'.published ≡ s.published ++ es
      → Conduct s (ok a, s')

-- the state after one changed row, committed with its event
abbrev pub after : State → String → InvoiceRow → InvoiceEvent → State
after s key row event =
    let d = record s.stored {
      invoices = insert key row s.stored.invoices;
      events = s.stored.events ++ event ∷ [];
    } in
    record { stored = d; working = d; published = s.published ++ event ∷ [] }

module _ {A : Type 0} {s : State} where
  pub conducted : {m n : Result InvoiceError A × State} → m ≡ n → Conduct s n → Conduct s m
  conducted e c = subst (Conduct s) (sym e) c

  pub refuses :
      {m : Result InvoiceError A × State} (e : InvoiceError)
      → m ≡ (err e, record s { working = s.stored })
      → Conduct s m
  refuses e eq = conducted eq (refused e (record s { working = s.stored }) refl refl)

  pub idles :
      {m : Result InvoiceError A × State} (a : A)
      → m ≡ (ok a, record s { working = s.stored })
      → Conduct s m
  idles a eq = conducted eq (
      served a (record s { working = s.stored }) [] here (sym (append-nil s.stored.events))
        (sym (append-nil s.published)))

  -- a call that changes one row and commits
  pub changes :
      {m : Result InvoiceError A × State} (a : A) (row row' : InvoiceRow) (e : InvoiceEvent)
      → lookup row.invoice_id s.stored.invoices ≡ some row
      → Edge row row' e
      → m ≡ (ok a, after s row.invoice_id row' e)
      → Conduct s m
  changes a row row' e found edge eq = conducted eq (
      served a (after s row.invoice_id row' e) (e ∷ [])
        (next here (changing row row' e found edge refl)) refl refl)
