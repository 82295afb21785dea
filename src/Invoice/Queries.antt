-- ===== src/Invoice/Queries.antt =====
-- Reads of linkmint-backend/invoice-subscription (`list_invoices` of app/db/repositories.py, whose
-- `limit` and `offset` the API keeps from being negative) and the consumer of the chain's events
-- (app/events/consumer.py), whose payload is the two keys that it looks at.
use paylink.Prelude.{
  ℕ, ◌≤◌, ◌≡◌, ⊤, String, Bool, true, false, ◌&&◌, Option, none, some, List, arith, All, length,
  leb, if◌then◌else◌, ◌==◌, string_eq, nat_eq, select, take, drop, sort_by, IsSortedBy, eq_iff_at,
  inl, inr, pure, ◌>>◌, IsOrder, sort_by-IsSortedBy, IsSortedBy-take, IsSortedBy-drop, All-take,
  All-drop, All-sort_by, All-map, select-All, request, ◌⊎◌, Bool-cases, Option-cases, Result-cases,
  length-take,
}
use paylink.Invoice.Model.{InvoiceStatus, draft, opened, paid, void, overdue}
use paylink.Invoice.Service.{
  InvoiceRow, InvoiceDb, Method, State, rows_of, nonempty, mark_paid_by_plid,
}

abbrev same_status : InvoiceStatus → InvoiceStatus → Bool
same_status draft draft = true
same_status opened opened = true
same_status paid paid = true
same_status void void = true
same_status overdue overdue = true
same_status _ _ = false

-- the filter by status, if there is one
abbrev pub of_status : Option InvoiceStatus → InvoiceRow → Bool
of_status none row = true
of_status (some status) row = same_status row.status status

-- `ORDER BY created_at DESC`
abbrev pub newer : InvoiceRow → InvoiceRow → Bool
newer a b = leb b.created_at a.created_at

unfoldable pub list_invoices : String → Option InvoiceStatus → ℕ → ℕ → InvoiceDb → List InvoiceRow
list_invoices merchant_id status limit offset d = take limit (
    drop offset (
      sort_by newer
        (select (λ r. (r.merchant_id == merchant_id) && of_status status r) (rows_of d.invoices))))

-- `payload.get("entity_id") or payload.get("pl_id")`
abbrev pub verified_plid : Option String → Option String → Option String
verified_plid entity_id pl_id = elim (nonempty entity_id) [
  | none ↦ nonempty pl_id
  | some p ↦ some p
]

unfoldable pub handle : (now : ℕ) (name : String) (entity_id pl_id : Option String) → Method ⊤
handle now name entity_id pl_id =
    if name == "chain.paylink.verified"
    then elim (verified_plid entity_id pl_id) [
      | none ↦ pure tt
      | some p ↦ do mark_paid_by_plid now p; pure tt
    ]
    else pure tt

-- The state after a delivery: the one after `mark_paid_by_plid` for a verified PayLink, and for
-- anything else the one before, with a new session.
pub handle-state :
    (now : ℕ) (name : String) (entity_id pl_id : Option String) (s : State)
    → ((request (handle now name entity_id pl_id) s).1 ≡ record s { working = s.stored })
      ⊎ ((p : String) × ((request (handle now name entity_id pl_id) s).1
            ≡ (request (mark_paid_by_plid now p) s).1))
unfolding handle
handle-state now name entity_id pl_id s = elim (Bool-cases (name == "chain.paylink.verified")) [
  | inr b ↦ inl (ground (arith, b))
  | inl b ↦ elim (Option-cases (verified_plid entity_id pl_id)) [
    | inl e ↦ inl (ground (arith, b, e))
    | inr (p, e) ↦ inr (
      p,
      elim (Result-cases (mark_paid_by_plid now p (record s { working = s.stored })).0) [
        | inl (x, r) ↦ ground (arith, b, e, r)
        | inr (x, r) ↦ ground (arith, b, e, r)
      ],
    )
  ]
]

newer-IsOrder : IsOrder newer
newer-IsOrder = record { total = λ a b h. ground arith; trans = λ a b c h k. ground arith }

-- what a listing was asked for
abbrev pub IsAsked : String → Option InvoiceStatus → InvoiceRow → Type 0
IsAsked merchant_id status row = (row.merchant_id ≡ merchant_id) × (of_status status row ≡ true)

asked :
    (merchant_id : String) (status : Option InvoiceStatus) (row : InvoiceRow)
    → (row.merchant_id == merchant_id) && of_status status row ≡ true
    → IsAsked merchant_id status row
asked m status row h = elim (Bool-cases (row.merchant_id == m)) [
  | inl b ↦ ((eq_iff_at row.merchant_id m).0 b, ground (arith, b, h))
  | inr b ↦ ground (arith, b, h)
]

-- A page of invoices has at most as many rows as its limit, each of the merchant and with the status
-- that were asked for, and each created no earlier than those after it.
list_invoices_lem :
    (merchant_id : String) (status : Option InvoiceStatus) (limit offset : ℕ) (d : InvoiceDb)
    → (length (list_invoices merchant_id status limit offset d) ≤ limit)
      × All (IsAsked merchant_id status) (list_invoices merchant_id status limit offset d)
      × IsSortedBy newer (list_invoices merchant_id status limit offset d)
unfolding list_invoices
list_invoices_lem m status limit offset d =
    let own = select (λ r. (r.merchant_id == m) && of_status status r) (rows_of d.invoices) in
    let page = drop offset (sort_by newer own) in
    (
      omega (arith, length-take limit page),
      All-take (IsAsked m status) limit page (
          All-drop (IsAsked m status) offset (sort_by newer own) (
            All-sort_by newer (IsAsked m status) own (
              All-map (λ r. (r.merchant_id == m) && of_status status r ≡ true) (IsAsked m status)
                (asked m status) own
                (select-All _ (λ r. (r.merchant_id == m) && of_status status r) (λ r h. h)
                  (rows_of d.invoices))))),
      IsSortedBy-take newer limit page (
          IsSortedBy-drop newer offset (sort_by newer own)
            (sort_by-IsSortedBy newer newer-IsOrder own)),
    )
