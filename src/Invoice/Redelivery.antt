-- ===== src/Invoice/Redelivery.antt =====
-- `mark_paid_by_plid` of linkmint-backend/invoice-subscription/app/domain/services.py, to which the
-- consumer of the chain's events may deliver a verified PayLink more than once.
use paylink.Prelude.{
  ℕ, String, ◌≡◌, inl, inr, Bool, false, subst, sym, refl, true, false, some, [], ◌∷◌, arith,
  string_eq, eq_iff_at, Option-cases, Bool-cases, IsDict, All, Table, insert, request, ok,
}
use paylink.Invoice.Model.{paid, is_payable}
use paylink.Invoice.Service.{
  InvoiceRow, invoice_paid, State, mark_paid_by_plid, get_by_plid, has_plid,
}
use paylink.Invoice.Lifecycle.{IsValid, StandsUnder}
use paylink.Invoice.Conduct.{after}
use paylink.Invoice.Requests.{get_by_plid-lookup}

-- A row that is written back with its PayLink is still the one found under it.
get_by_plid-insert :
    (p : String) (t : Table String InvoiceRow) (row row' : InvoiceRow)
    → IsDict t
    → All StandsUnder t
    → get_by_plid p t ≡ some row
    → row'.pl_id ≡ row.pl_id
    → get_by_plid p (insert row.invoice_id row' t) ≡ some row'
unfolding get_by_plid insert
get_by_plid-insert p [] row row' dict keyed e same = ground arith
get_by_plid-insert p (entry ∷ t) row row' dict keyed e same =
    elim (Bool-cases (has_plid p entry.1)) [
      | inl b ↦ ground (arith, b, e, same, keyed.0, eq_iff_at entry.0 row.invoice_id)
      | inr b ↦ ground (
        arith,
        b,
        e,
        get_by_plid-lookup p t row dict.1 keyed.1,
        dict.0,
        eq_iff_at entry.0 row.invoice_id,
        get_by_plid-insert p t row row' dict.1 keyed.1,
        same,
      )
    ]

module _ (now later : ℕ) (p : String) (s : State) where
  -- The second call finds the first one's state, whatever that came to.
  redelivered :
      (result : Bool) (t : State)
      → request (mark_paid_by_plid now p) s ≡ (ok result, t)
      → request (mark_paid_by_plid later p) t ≡ (ok false, t)
      → request (mark_paid_by_plid later p) (request (mark_paid_by_plid now p) s).1
        ≡ (ok false, (request (mark_paid_by_plid now p) s).1)
  redelivered result t first second =
      subst (λ r. request (mark_paid_by_plid later p) r.1 ≡ (ok false, r.1)) (sym first) second

-- A second delivery of the same PayLink to a valid database, at any time, answers that nothing was
-- marked and leaves the stored tables, the session and the published events as the first left them.
pub mark_paid_by_plid_twice :
    (now later : ℕ) (p : String) (s : State)
    → IsValid s.stored
    → request (mark_paid_by_plid later p) (request (mark_paid_by_plid now p) s).1
      ≡ (ok false, (request (mark_paid_by_plid now p) s).1)
unfolding mark_paid_by_plid
mark_paid_by_plid_twice now later p s v = elim (Option-cases (get_by_plid p s.stored.invoices)) [
  | inl e ↦
      redelivered now later p s false (record s { working = s.stored }) (ground (arith, e))
        (ground (arith, e))
  | inr (row, e) ↦ elim (Bool-cases (is_payable row.status)) [
    | inr b ↦
        redelivered now later p s false (record s { working = s.stored }) (ground (arith, e, b))
          (ground (arith, e, b))
    | inl b ↦
        let row' = record row { status = paid; paid_at = some now } in
        redelivered now later p s true
          (after s row.invoice_id row'
            (invoice_paid row.invoice_id p row.merchant_id row.currency row.total))
          (ground (arith, e, b))
          (ground (arith, get_by_plid-insert p s.stored.invoices row row' v.dict v.keyed e refl))
  ]
]
