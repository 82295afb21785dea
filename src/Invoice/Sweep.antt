-- ===== src/Invoice/Sweep.antt =====
-- The overdue sweeper of linkmint-backend/invoice-subscription: `find_overdue` of
-- app/db/repositories.py and `sweep_overdue` of app/domain/services.py.
use paylink.Prelude.{
  ℕ, String, ◌≡◌, ◌≢◌, inl, inr, refl, true, false, some, none, List, [], ◌∷◌, ◌++◌, arith, ◌&&◌,
  string_eq, eq_iff_at, lookup, lookup-insert, Bool-cases, IsDict, All, Table, insert, request, ok,
  ltb, Distinct, Differs, Distinct-select, Distinct-take, Distinct-sort_by, All-sort_by, All-take,
  All-select_with, All-map, append-nil, append_assoc, ap, ◌∙◌, suc, sym, subst, length,
}
use paylink.Invoice.Model.{opened, overdue, is_opened}
use paylink.Invoice.Service.{
  InvoiceDb, InvoiceRow, InvoiceEvent, invoice_overdue, State, rows_of, find_overdue, sweep_each,
  sweep_overdue,
}
use paylink.Invoice.Lifecycle.{
  Steps, Steps-trans, here, next, changing, expiring, IsValid, StandsUnder,
}
use paylink.Invoice.Conduct.{Conduct, served, conducted}

-- A row that stands in the table, open and due before now.
pub record IsDue (now : ℕ) (t : Table String InvoiceRow) (row : InvoiceRow) : Type 0 where
  pub found : lookup row.invoice_id t ≡ some row
  pub still_open : row.status ≡ opened
  pub late : ltb row.due_at now ≡ true

abbrev invoice_id_of : InvoiceRow → String
invoice_id_of row = row.invoice_id

abbrev Holds : Table String InvoiceRow → InvoiceRow → Type 0
Holds t row = lookup row.invoice_id t ≡ some row

Holds-cons :
    (entry : String × InvoiceRow) (t : Table String InvoiceRow)
    → lookup entry.0 t ≡ none
    → (row : InvoiceRow) → Holds t row
    → Holds (entry ∷ t) row
unfolding lookup
Holds-cons entry t absent row h = ground (arith, absent, h, eq_iff_at entry.0 row.invoice_id)

found_first :
    (entry : String × InvoiceRow) (t : Table String InvoiceRow)
    → StandsUnder entry
    → Holds (entry ∷ t) entry.1
unfolding lookup
found_first entry t own = ground (arith, own, eq_iff_at entry.0 entry.1.invoice_id)

apart_from :
    (entry : String × InvoiceRow) (t : Table String InvoiceRow)
    → lookup entry.0 t ≡ none
    → StandsUnder entry
    → (row : InvoiceRow) → Holds t row
    → entry.1.invoice_id ≢ row.invoice_id
apart_from entry t absent own row h same = ground (arith, absent, own, h, same)

rows_of-Holds :
    (t : Table String InvoiceRow) → IsDict t → All StandsUnder t → All (Holds t) (rows_of t)
rows_of-Holds [] dict keyed = tt
rows_of-Holds (entry ∷ t) dict keyed = (
  found_first entry t keyed.0,
  All-map (Holds t) (Holds (entry ∷ t)) (Holds-cons entry t dict.0) (rows_of t)
      (rows_of-Holds t dict.1 keyed.1),
)

rows_of-Distinct :
    (t : Table String InvoiceRow)
    → IsDict t
    → All StandsUnder t
    → Distinct invoice_id_of (rows_of t)
rows_of-Distinct [] dict keyed = tt
rows_of-Distinct (entry ∷ t) dict keyed = (
  All-map (Holds t) (Differs invoice_id_of entry.1.invoice_id) (apart_from entry t dict.0 keyed.0)
      (rows_of t) (rows_of-Holds t dict.1 keyed.1),
  rows_of-Distinct t dict.1 keyed.1,
)

is_due :
    (now : ℕ) (t : Table String InvoiceRow) (row : InvoiceRow)
    → Holds t row
    → is_opened row.status && ltb row.due_at now ≡ true
    → IsDue now t row
is_due now t row h test = record {
  found = h;
  still_open = ground (arith, test);
  late = ground (arith, test);
}

find_overdue-IsDue :
    (now : ℕ) (d : InvoiceDb) → IsValid d → All (IsDue now d.invoices) (find_overdue now d.invoices)
unfolding find_overdue
find_overdue-IsDue now d v = All-take (IsDue now d.invoices) 100 _ (
    All-sort_by _ (IsDue now d.invoices) _ (
      All-select_with (Holds d.invoices) (IsDue now d.invoices) _ (is_due now d.invoices)
        (rows_of d.invoices) (rows_of-Holds d.invoices v.dict v.keyed)))

find_overdue-Distinct :
    (now : ℕ) (d : InvoiceDb) → IsValid d → Distinct invoice_id_of (find_overdue now d.invoices)
unfolding find_overdue
find_overdue-Distinct now d v = Distinct-take invoice_id_of 100 _ (
    Distinct-sort_by invoice_id_of _ _ (
      Distinct-select invoice_id_of _ (rows_of d.invoices)
        (rows_of-Distinct d.invoices v.dict v.keyed)))

-- Writing one row leaves the others as they are.
IsDue-insert :
    (now : ℕ) (row row' other : InvoiceRow) (t : Table String InvoiceRow)
    → row.invoice_id ≢ other.invoice_id
    → IsDue now t other
    → IsDue now (insert row.invoice_id row' t) other
IsDue-insert now row row' other t apart due = record {
  found =
      lookup-insert row.invoice_id other.invoice_id row' t
      ∙ ground (arith, eq_iff_at row.invoice_id other.invoice_id, apart, due.found);
  still_open = due.still_open;
  late = due.late;
}

remain-IsDue :
    (now : ℕ) (row row' : InvoiceRow) (rows : List InvoiceRow) (t : Table String InvoiceRow)
    → All (Differs invoice_id_of row.invoice_id) rows
    → All (IsDue now t) rows
    → All (IsDue now (insert row.invoice_id row' t)) rows
remain-IsDue now row row' [] t apart due = tt
remain-IsDue now row row' (other ∷ rows) t apart due = (
  IsDue-insert now row row' other t apart.0 due.0,
  remain-IsDue now row row' rows t apart.1 due.1,
)

-- What the loop does: the rows change in the session, and nothing is committed yet.
record Swept (rows : List InvoiceRow) (s : State) : Type 0 where
  after : State
  reported : List InvoiceEvent
  result : sweep_each rows s ≡ (ok tt, after)
  kept : after.stored ≡ s.stored
  steps : Steps s.working after.working
  stored_events : after.working.events ≡ s.working.events ++ reported
  echoed : after.published ≡ s.published ++ reported
  each_once : length reported ≡ length rows

sweep_each-Swept :
    (now : ℕ) (rows : List InvoiceRow) (s : State)
    → All (IsDue now s.working.invoices) rows
    → Distinct invoice_id_of rows
    → Swept rows s
unfolding sweep_each
sweep_each-Swept now [] s due apart = record {
  after = s;
  reported = [];
  result = refl;
  kept = refl;
  steps = here;
  stored_events = sym (append-nil s.working.events);
  echoed = sym (append-nil s.published);
  each_once = refl;
}
sweep_each-Swept now (row ∷ rows) s due apart =
    let late = record row { status = overdue } in
    let event = invoice_overdue row.invoice_id row.merchant_id row.currency row.due_at row.total in
    let d : InvoiceDb = record s.working {
      invoices = insert row.invoice_id late s.working.invoices;
      events = s.working.events ++ event ∷ [];
    } in
    let rest =
      sweep_each-Swept now rows
        (record { stored = s.stored; working = d; published = s.published ++ event ∷ [] })
        (remain-IsDue now row late rows s.working.invoices apart.0 due.1) apart.1 in
    record {
      after = rest.after;
      reported = event ∷ rest.reported;
      result = rest.result;
      kept = rest.kept;
      steps =
          Steps-trans
            (next here (changing row late event due.0.found (expiring due.0.still_open refl) refl))
            rest.steps;
      stored_events = rest.stored_events ∙ append_assoc s.working.events (event ∷ []) rest.reported;
      echoed = rest.echoed ∙ append_assoc s.published (event ∷ []) rest.reported;
      each_once = ap suc rest.each_once;
    }

none_reported :
    (events : List InvoiceEvent) (rows : List InvoiceRow)
    → length events ≡ length rows
    → ltb 0 (length rows) ≡ false
    → events ≡ []
none_reported [] rows e b = refl
none_reported (event ∷ events) [] e b = ground (arith, e)
none_reported (event ∷ events) (row ∷ rows) e b = ground (arith, e, b)

pub sweep_overdue-Conduct :
    (now : ℕ) (s : State) → IsValid s.stored → Conduct s (request (sweep_overdue now) s)
unfolding sweep_overdue
sweep_overdue-Conduct now s v =
    let rows = find_overdue now s.stored.invoices in
    let r =
      sweep_each-Swept now rows (record s { working = s.stored })
        (find_overdue-IsDue now s.stored v) (find_overdue-Distinct now s.stored v) in
    elim (Bool-cases (ltb 0 (length rows))) [
      | inl b ↦
          let t : State = record r.after { stored = r.after.working } in
          conducted {n = (ok (length rows), t)} (ground (arith, r.result, b))
            (served (length rows) t r.reported r.steps r.stored_events r.echoed)
      | inr b ↦
          let t : State = record r.after { working = r.after.stored } in
          conducted {n = (ok (length rows), t)} (ground (arith, r.result, b)) (
            served (length rows) t r.reported (subst (Steps s.stored) (sym r.kept) here)
              (subst (λ es. r.after.stored.events ≡ s.stored.events ++ es)
                (sym (none_reported r.reported rows r.each_once b))
                (ap (λ d. d.events) r.kept ∙ sym (append-nil s.stored.events)))
              r.echoed)
    ]
