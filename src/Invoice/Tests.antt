-- ===== src/Invoice/Tests.antt =====
-- The invoices of linkmint-backend/invoice-subscription on concrete calls, and the theorems about
-- them at these calls.
use paylink.Prelude.{
  ◌++◌, round0, String, ◌≡◌, refl, false, none, some, Option, List, [], ◌∷◌, ok, lookup, string_eq,
  insert, request, sort_by,
}
use paylink.Invoice.Model.{
  InvoiceStatus, opened, paid, void, overdue, LineInput, compute_totals, compute_from, line_total,
  line_tax,
}
use paylink.Invoice.Service.{
  InvoiceRow, State, HttpReply, response, PaylinkRequest, finalize, create, mark_paid_by_plid,
  sweep_overdue, get_by_plid, void_invoice, paylink_create, find_overdue,
}
use paylink.Invoice.Lifecycle.{IsValid}
use paylink.Invoice.Finalizing.{Finalizes, finalize-Finalizes}
use paylink.Invoice.History.{Kept}
use paylink.Invoice.Payments.{payments, stands_paid, bit}
use paylink.Invoice.Calls.{
  Call, creating, finalizing, voiding, delivering, sweeping, perform, perform_all, new_service,
  perform_all-IsValid, perform_all-payments, perform_all-Kept,
}
use paylink.Invoice.Queries.{handle}
use paylink.Invoice.Totals.{IsTotalling, compute_totals_lem}
use paylink.Invoice.Redelivery.{mark_paid_by_plid_twice}

-- two and a half units at 1.99, with 16 % tax
abbrev lines : List LineInput
lines = record { description = "seat"; quantity = 25000; unit_price = 199; tax_rate = 1600 } ∷ []

abbrev linked_by : String → PaylinkRequest → HttpReply
linked_by p _ = response 201 (some (some p))

abbrev first_calls : List Call
first_calls =
    creating 10 "inv-1" "m-1" none "0xabc" "KES" lines 100
    ∷ creating 11 "inv-2" "m-1" none "0xabc" "KES" lines 50
    ∷ finalizing (linked_by "pl-1") "m-1" "inv-1"
    ∷ finalizing (linked_by "pl-2") "m-1" "inv-2"
    ∷ []

abbrev later_calls : List Call
later_calls =
    sweeping 60
    ∷ delivering 70 "chain.paylink.verified" (some "pl-2") none
    ∷ voiding "m-1" "inv-2"
    ∷ voiding "m-1" "inv-1"
    ∷ []

abbrev two_open : State
unfolding perform_all
two_open = perform_all first_calls new_service

abbrev two_open-IsValid : IsValid two_open.stored
unfolding perform_all
two_open-IsValid = perform_all-IsValid first_calls

-- one invoice that is still a draft
abbrev one_draft : State
unfolding perform_all
one_draft = perform_all (creating 10 "inv-1" "m-1" none "0xabc" "KES" lines 100 ∷ []) new_service

abbrev one_draft-IsValid : IsValid one_draft.stored
unfolding perform_all
one_draft-IsValid =
    perform_all-IsValid (creating 10 "inv-1" "m-1" none "0xabc" "KES" lines 100 ∷ [])

abbrev status_of : String → State → Option InvoiceStatus
status_of k s = elim (lookup k s.stored.invoices) [ none ↦ none | some row ↦ some row.status ]

compute_totals_result :
    let c = compute_totals lines in (c.subtotal ≡ 498) × (c.tax ≡ 80) × (c.total ≡ 578)
unfolding compute_totals compute_from line_total line_tax round0
compute_totals_result = (refl, refl, refl)

statuses :
    (status_of "inv-1" two_open ≡ some opened)
    × (status_of "inv-2" (perform (sweeping 60) two_open) ≡ some overdue)
    × (status_of "inv-2" (perform_all later_calls two_open) ≡ some paid)
    × (status_of "inv-1" (perform_all later_calls two_open) ≡ some void)
unfolding perform_all perform lookup finalize create insert paylink_create get_by_plid sweep_overdue
    find_overdue sort_by void_invoice mark_paid_by_plid handle
statuses = (refl, refl, refl, refl)

perform_all-IsValid_example : IsValid (perform_all first_calls new_service).stored
perform_all-IsValid_example = perform_all-IsValid first_calls

perform_all-payments_example :
    payments "inv-2" (perform_all (first_calls ++ later_calls) new_service).stored.events
    ≡ bit (stands_paid "inv-2" (perform_all (first_calls ++ later_calls) new_service).stored)
perform_all-payments_example = perform_all-payments (first_calls ++ later_calls) "inv-2"

compute_totals_lem_example : IsTotalling lines
compute_totals_lem_example = compute_totals_lem lines

finalize-Finalizes_example :
    Finalizes
      (linked_by "pl-9")
      "m-1"
      "inv-1"
      one_draft
      (request (finalize (linked_by "pl-9") "m-1" "inv-1") one_draft)
finalize-Finalizes_example =
    finalize-Finalizes (linked_by "pl-9") "m-1" "inv-1" one_draft one_draft-IsValid

mark_paid_by_plid_twice_example :
    request (mark_paid_by_plid 71 "pl-1") (request (mark_paid_by_plid 70 "pl-1") two_open).1
    ≡ (ok false, (request (mark_paid_by_plid 70 "pl-1") two_open).1)
mark_paid_by_plid_twice_example = mark_paid_by_plid_twice 70 71 "pl-1" two_open two_open-IsValid

-- the second invoice of `two_open`
abbrev open_row : InvoiceRow
open_row = record {
  invoice_id = "inv-2";
  merchant_id = "m-1";
  customer_id = none;
  payee_addr = "0xabc";
  pl_id = some "pl-2";
  currency = "KES";
  subtotal = 498;
  tax = 80;
  total = 578;
  status = opened;
  due_at = 50;
  paid_at = none;
  created_at = 11;
}

open_row-lookup : lookup "inv-2" two_open.stored.invoices ≡ some open_row
unfolding perform_all perform lookup finalize create insert paylink_create get_by_plid
    compute_totals compute_from line_total line_tax round0
open_row-lookup = refl

perform_all-Kept_example : Kept "inv-2" open_row (perform_all later_calls two_open).stored
perform_all-Kept_example =
    perform_all-Kept later_calls two_open "inv-2" open_row two_open-IsValid open_row-lookup
