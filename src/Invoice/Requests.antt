-- ===== src/Invoice/Requests.antt =====
-- The calls of app/domain/services.py of linkmint-backend/invoice-subscription, one by one.
use paylink.Prelude.{
  All-lookup, is_some, ℕ, ◌+◌, String, ◌≡◌, ◌⊎◌, inl, inr, refl, true, false, Option, some, List,
  [], ◌∷◌, ◌++◌, arith, ◌==◌, string_eq, eq_iff_at, lookup, Option-cases, Bool-cases, map, select,
  IsDict, All, Table, insert, request, ok, err,
}
use paylink.Invoice.Model.{
  InvoiceStatus, draft, opened, paid, void, is_paid, is_void, is_payable, is_draft, LineInput,
  ComputedLine, computed_line, line_total, line_tax, compute_totals, compute_from,
}
use paylink.Invoice.Service.{
  InvoiceDb, InvoiceRow, invoice_created, invoice_finalized, invoice_voided, invoice_paid, State,
  HttpReply, PaylinkRequest, paylink_create, nonempty, create, finalize, void_invoice, get,
  mark_paid_by_plid, get_by_plid, load_owned, paylink_request, invoice_not_found, invalid_state,
  paylink_unavailable, already_paid, integrity_error, new_row, has_plid, line_row,
}
use paylink.Invoice.Lifecycle.{
  here, next, adding, finalizing, voiding, paying, IsValid, StandsUnder,
}
use paylink.Invoice.Conduct.{Conduct, served, conducted, refuses, idles, changes}

-- What `load_owned` finds.
pub load_owned-cases :
    (merchant_id invoice_id : String) (s : State)
    → (load_owned merchant_id invoice_id s ≡ (err invoice_not_found, s))
      ⊎ ((row : InvoiceRow) × (lookup invoice_id s.working.invoices ≡ some row)
          × (row.merchant_id ≡ merchant_id)
          × (load_owned merchant_id invoice_id s ≡ (ok row, s)))
unfolding load_owned
load_owned-cases m i s = elim (Option-cases (lookup i s.working.invoices)) [
  | inl e ↦ inl (ground (arith, e))
  | inr (row, e) ↦ elim (Bool-cases (row.merchant_id == m)) [
    | inl b ↦ inr (row, e, (eq_iff_at row.merchant_id m).0 b, ground (arith, e, b))
    | inr b ↦ inl (ground (arith, e, b))
  ]
]

pub is_draft_iff : (status : InvoiceStatus) → is_draft status ≡ true → status ≡ draft
is_draft_iff status e = ground arith

pub finalize-Conduct :
    (http : PaylinkRequest → HttpReply) (merchant_id invoice_id : String) (s : State)
    → IsValid s.stored
    → Conduct s (request (finalize http merchant_id invoice_id) s)
unfolding finalize
finalize-Conduct http m i s v = elim (load_owned-cases m i (record s { working = s.stored })) [
  | inl e ↦ refuses invoice_not_found (ground (arith, e))
  | inr (row, found, own, e) ↦ elim (Bool-cases (is_draft row.status)) [
    | inr b ↦ refuses invalid_state (ground (arith, e, b))
    | inl b ↦ elim (Option-cases (paylink_create (http (paylink_request row i)))) [
      | inl c ↦ refuses paylink_unavailable (ground (arith, e, b, c))
      | inr (reply, c) ↦ elim (Option-cases (nonempty reply)) [
        | inl n ↦ refuses paylink_unavailable (ground (arith, e, b, c, n))
        | inr (p, n) ↦ elim (Bool-cases (is_some (get_by_plid p s.stored.invoices))) [
          | inl g ↦ refuses integrity_error (ground (arith, e, b, c, n, g))
          | inr g ↦
              let id = All-lookup StandsUnder i row s.stored.invoices v.keyed found in
              changes (record row { pl_id = some p; status = opened }) row
                (record row { pl_id = some p; status = opened })
                (invoice_finalized row.invoice_id p row.merchant_id row.currency row.total)
                (ground (arith, id, found)) (finalizing p (is_draft_iff row.status b) refl)
                (ground (arith, e, b, c, n, g, id, own))
        ]
      ]
    ]
  ]
]

pub void_invoice-Conduct :
    (merchant_id invoice_id : String) (s : State)
    → IsValid s.stored
    → Conduct s (request (void_invoice merchant_id invoice_id) s)
unfolding void_invoice
void_invoice-Conduct m i s v = elim (load_owned-cases m i (record s { working = s.stored })) [
  | inl e ↦ refuses invoice_not_found (ground (arith, e))
  | inr (row, found, own, e) ↦ elim (Bool-cases (is_paid row.status)) [
    | inl b ↦ refuses already_paid (ground (arith, e, b))
    | inr b ↦ elim (Bool-cases (is_void row.status)) [
      | inl c ↦ refuses invalid_state (ground (arith, e, b, c))
      | inr c ↦
          let id = All-lookup StandsUnder i row s.stored.invoices v.keyed found in
          changes (record row { status = void }) row (record row { status = void })
            (invoice_voided row.invoice_id row.merchant_id) (ground (arith, id, found))
            (voiding b c refl) (ground (arith, e, b, c, id, own))
    ]
  ]
]

pub get-Conduct :
    (merchant_id invoice_id : String) (s : State)
    → Conduct s (request (get merchant_id invoice_id) s)
unfolding get
get-Conduct m i s = elim (load_owned-cases m i (record s { working = s.stored })) [
  | inl e ↦ refuses invoice_not_found (ground (arith, e))
  | inr (row, found, own, e) ↦
      idles (row, select (λ l. l.invoice_id == i) s.stored.lines) (ground (arith, e))
]

pub has_plid_lem : (p : String) (row : InvoiceRow) → has_plid p row ≡ true → row.pl_id ≡ some p
has_plid_lem p row e = elim (Option-cases row.pl_id) [
  | inl n ↦ ground (arith, n)
  | inr (q, n) ↦ ground (arith, n, eq_iff_at q p)
]

-- The row that the index on `pl_id` leads to stands under its own identifier.
pub get_by_plid-lookup :
    (p : String) (t : Table String InvoiceRow) (row : InvoiceRow)
    → IsDict t
    → All StandsUnder t
    → get_by_plid p t ≡ some row
    → (lookup row.invoice_id t ≡ some row) × (row.pl_id ≡ some p)
unfolding get_by_plid lookup
get_by_plid-lookup p [] row dict keyed e = ground arith
get_by_plid-lookup p (entry ∷ t) row dict keyed e = elim (Bool-cases (has_plid p entry.1)) [
  | inl b ↦
      ground (arith, b, e, keyed.0, eq_iff_at entry.0 entry.1.invoice_id, has_plid_lem p entry.1 b)
  | inr b ↦
      let rest = get_by_plid-lookup p t row dict.1 keyed.1 (ground (arith, b)) in
      ground (arith, rest, dict.0, eq_iff_at entry.0 row.invoice_id)
]

pub mark_paid_by_plid-Conduct :
    (now : ℕ) (pl_id : String) (s : State)
    → IsValid s.stored
    → Conduct s (request (mark_paid_by_plid now pl_id) s)
unfolding mark_paid_by_plid
mark_paid_by_plid-Conduct now p s v = elim (Option-cases (get_by_plid p s.stored.invoices)) [
  | inl e ↦ idles false (ground (arith, e))
  | inr (row, e) ↦ elim (Bool-cases (is_payable row.status)) [
    | inr b ↦ idles false (ground (arith, e, b))
    | inl b ↦
        let found = get_by_plid-lookup p s.stored.invoices row v.dict v.keyed e in
        changes true row (record row { status = paid; paid_at = some now })
          (invoice_paid row.invoice_id p row.merchant_id row.currency row.total) found.0
          (paying now p b found.1 refl) (ground (arith, e, b))
  ]
]

compute_from-total :
    (computed : List ComputedLine) (subtotal tax : ℕ) (lines : List LineInput)
    → let c = compute_from computed subtotal tax lines in c.total ≡ c.subtotal + c.tax
unfolding compute_from
compute_from-total computed subtotal tax [] = refl
compute_from-total computed subtotal tax (ln ∷ lines) =
    compute_from-total (computed ++ computed_line ln ∷ []) (subtotal + line_total ln)
      (tax + line_tax ln) lines

pub create-Conduct :
    (now : ℕ) (fresh merchant_id : String) (customer_id : Option String)
    (payee_addr currency : String) (lines : List LineInput) (due_at : ℕ) (s : State)
    → Conduct s
        (request (create now fresh merchant_id customer_id payee_addr currency lines due_at) s)
unfolding create compute_totals
create-Conduct now f m c pay cur lines due s =
    let totals = compute_totals lines in
    let row = new_row now f m c pay cur totals due in
    elim (Option-cases (lookup f s.stored.invoices)) [
      | inr (old, e) ↦ refuses integrity_error (ground (arith, e))
      | inl e ↦
          let d : InvoiceDb = record {
            invoices = insert f row s.stored.invoices;
            lines = s.stored.lines ++ map (line_row f) totals.lines;
            events = s.stored.events ++ invoice_created f m cur totals.total ∷ [];
          } in
          let t : State = record {
            stored = d;
            working = d;
            published = s.published ++ invoice_created f m cur totals.total ∷ [];
          } in
          conducted {n = (ok row, t)} (ground (arith, e)) (
            served row t (invoice_created f m cur totals.total ∷ [])
              (next here (
                adding row (map (line_row f) totals.lines) e refl
                  (record {
                    summed = compute_from-total [] 0 0 lines;
                    settled = refl;
                    unlinked = refl;
                    linked = refl;
                  })
                  refl))
              refl refl)
    ]
