-- ===== src/Invoice/Finalizing.antt =====
-- `finalize` of linkmint-backend/invoice-subscription/app/domain/services.py against what it is for:
-- a draft becomes open behind a PayLink, or nothing changes.
use Prim.Native.String.{◌++◌ as append}
use paylink.Prelude.{
  String, false, ◌≡◌, ◌≢◌, inl, inr, refl, sym, ap, ◌∙◌, subst, Option, none, some, [], ◌∷◌, ◌++◌,
  arith, ◌==◌, string_eq, nat_eq, eq_iff_at, lookup, insert, All-lookup, Option-cases, Bool-cases,
  Result, ok, err, request,
}
use paylink.Invoice.Model.{draft, opened, is_draft}
use paylink.Invoice.Service.{
  InvoiceDb, InvoiceRow, invoice_finalized, State, InvoiceError, HttpReply, response, unreachable,
  PaylinkRequest, paylink_create, nonempty, finalize, load_owned, paylink_request, get_by_plid,
  invoice_not_found, invalid_state, paylink_unavailable, integrity_error,
}
use paylink.Invoice.Lifecycle.{IsValid, StandsUnder}
use paylink.Invoice.Requests.{load_owned-cases, is_draft_iff}

-- what paylink-service is asked: to pay the total to the payee, once, until the invoice is due
abbrev pub asked_for : InvoiceRow → String → PaylinkRequest
asked_for row invoice_id = record {
  receiver = row.payee_addr;
  amount = row.total;
  currency = row.currency;
  expiry = row.due_at;
  usage = "single";
  invoice_id = invoice_id;
  idempotency_key = append "invoice-" invoice_id;
}

-- An invoice that can be opened: a draft of the merchant, for which paylink-service answers a request
-- for its payee, total, currency and due time with 201 and the identifier of a PayLink, which no
-- other invoice has.
pub record Openable (http : PaylinkRequest → HttpReply) (merchant_id invoice_id : String)
    (d : InvoiceDb) : Type 0 where
  pub row : InvoiceRow
  pub pl_id : String
  pub found : lookup invoice_id d.invoices ≡ some row
  pub owned : row.merchant_id ≡ merchant_id
  pub drafted : row.status ≡ draft
  pub replied : http (asked_for row invoice_id) ≡ response 201 (some (some pl_id))
  pub named : pl_id ≢ ""
  pub unused : get_by_plid pl_id d.invoices ≡ none

-- the invoice, open behind its PayLink
abbrev pub opened_row : InvoiceRow → String → InvoiceRow
opened_row row pl_id = record row { pl_id = some pl_id; status = opened }

-- the tables with this one change and its event
abbrev pub opened_db : InvoiceDb → InvoiceRow → String → InvoiceDb
opened_db d row pl_id = record d {
  invoices = insert row.invoice_id (opened_row row pl_id) d.invoices;
  events =
      d.events
      ++ invoice_finalized row.invoice_id pl_id row.merchant_id row.currency row.total ∷ [];
}

-- What a request to finalize does: it opens an invoice that can be opened, or it raises, the invoice
-- cannot be opened, and what is stored and published stays.
abbrev pub Finalizes :
    (http : PaylinkRequest → HttpReply) (merchant_id invoice_id : String) (s : State)
    → Result InvoiceError InvoiceRow × State
    → Type 0
Finalizes http m i s (ok row', t) =
    (o : Openable http m i s.stored) × (row' ≡ opened_row o.row o.pl_id)
    × (t.stored ≡ opened_db s.stored o.row o.pl_id)
    × (t.published ≡ s.published ++ invoice_finalized i o.pl_id m o.row.currency o.row.total ∷ [])
Finalizes http m i s (err e, t) =
    (¬ Openable http m i s.stored) × (t.stored ≡ s.stored) × (t.published ≡ s.published)

paylink_create-some :
    (reply : HttpReply) (body : Option String)
    → paylink_create reply ≡ some body
    → reply ≡ response 201 (some body)
unfolding paylink_create
paylink_create-some unreachable body h = cc
paylink_create-some (response status content) body h = elim (Bool-cases (status == 201)) [
  | inr e ↦ absurd (ground (arith, e, h))
  | inl e ↦
      let good : status ≡ 201 = (eq_iff_at status 201).0 e in
      let same : content ≡ some body = ground (arith, e, h) in rw (good, same) refl
]

nonempty-some :
    (reply : Option String) (p : String) → nonempty reply ≡ some p → (reply ≡ some p) × (p ≢ "")
nonempty-some none p h = absurd (ground (arith, h))
nonempty-some (some q) p h = elim (Bool-cases (q == "")) [
  | inl e ↦ absurd (ground (arith, e, h))
  | inr e ↦
      let same : q ≡ p = ground (arith, e, h) in
      (ap some same, λ none_at_all. absurd (ground (arith, e, same, none_at_all, eq_iff_at q "")))
]

module _ (http : PaylinkRequest → HttpReply) (m i : String) (s : State) where
  abbrev run : Result InvoiceError InvoiceRow × State
  run = request (finalize http m i) s

  abbrev opened_state : InvoiceRow → String → State
  opened_state row pl_id = record {
    stored = opened_db s.stored row pl_id;
    working = opened_db s.stored row pl_id;
    published = s.published ++ invoice_finalized i pl_id m row.currency row.total ∷ [];
  }

  -- An invoice that can be opened is opened.
  opens :
      (o : Openable http m i s.stored)
      → IsValid s.stored
      → run ≡ (ok (opened_row o.row o.pl_id), opened_state o.row o.pl_id)
  unfolding finalize load_owned paylink_create
  opens o v =
      let id = All-lookup StandsUnder i o.row s.stored.invoices v.keyed o.found in
      let named : (o.pl_id == "") ≡ false = elim (Bool-cases (o.pl_id == "")) [
        | inr e ↦ e
        | inl e ↦ absurd (o.named ((eq_iff_at o.pl_id "").0 e))
      ] in
      ground (
        arith,
        o.found,
        o.owned,
        o.drafted,
        o.replied,
        named,
        o.unused,
        id,
        eq_iff_at o.row.merchant_id m,
      )

  refused :
      (e : InvoiceError)
      → IsValid s.stored
      → run ≡ (err e, record s { working = s.stored })
      → Finalizes http m i s run
  refused e v ran =
      subst (Finalizes http m i s) (sym ran)
        ((λ o. absurd (ground (arith, ran, opens o v))), refl, refl)

  -- A request to finalize an invoice of a valid database opens it, if it can be opened: the row has
  -- the PayLink and the status OPEN and nothing else of the tables changes but the event, which is
  -- stored and published. Otherwise the request raises, and what is stored and published stays.
  pub finalize-Finalizes : IsValid s.stored → Finalizes http m i s (request (finalize http m i) s)
  unfolding finalize
  finalize-Finalizes v = elim (load_owned-cases m i (record s { working = s.stored })) [
    | inl e ↦ refused invoice_not_found v (ground (arith, e))
    | inr (row, found, own, e) ↦ elim (Bool-cases (is_draft row.status)) [
      | inr b ↦ refused invalid_state v (ground (arith, e, b))
      | inl b ↦ elim (Option-cases (paylink_create (http (paylink_request row i)))) [
        | inl c ↦ refused paylink_unavailable v (ground (arith, e, b, c))
        | inr (reply, c) ↦ elim (Option-cases (nonempty reply)) [
          | inl n ↦ refused paylink_unavailable v (ground (arith, e, b, c, n))
          | inr (p, n) ↦ elim (Option-cases (get_by_plid p s.stored.invoices)) [
            | inr (other, g) ↦ refused integrity_error v (ground (arith, e, b, c, n, g))
            | inl g ↦
                let good = nonempty-some reply p n in
                let o : Openable http m i s.stored = record {
                  row = row;
                  pl_id = p;
                  found = found;
                  owned = own;
                  drafted = is_draft_iff row.status b;
                  replied =
                      paylink_create-some (http (paylink_request row i)) reply c
                      ∙ ap (λ x. response 201 (some x)) good.0;
                  named = good.1;
                  unused = g;
                } in
                subst (Finalizes http m i s) (sym (opens o v)) (o, refl, refl, refl)
          ]
        ]
      ]
    ]
  ]
