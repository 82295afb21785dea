-- ===== src/Invoice/Calls.antt =====
-- The invoice service of linkmint-backend/invoice-subscription under any sequence of calls, by the
-- API, by the consumer of the chain's events and by the sweeper, with any replies of
-- paylink-service.
use paylink.Prelude.{
  ℕ, inl, inr, String, ◌≡◌, refl, Option, some, List, [], ◌∷◌, ◌++◌, lookup, string_eq, request,
  Result, ◌∙◌, sym, ap, subst, append-nil, append_assoc,
}
use paylink.Invoice.Model.{LineInput}
use paylink.Invoice.Service.{
  InvoiceRow, InvoiceEvent, InvoiceDb, State, HttpReply, PaylinkRequest, InvoiceError, create,
  finalize, void_invoice, get, sweep_overdue,
}
use paylink.Invoice.Lifecycle.{Steps, Steps-trans, here, IsValid, Steps-IsValid}
use paylink.Invoice.Conduct.{Conduct, refused, served}
use paylink.Invoice.Requests.{
  create-Conduct, finalize-Conduct, void_invoice-Conduct, get-Conduct, mark_paid_by_plid-Conduct,
}
use paylink.Invoice.Queries.{handle, handle-state}
use paylink.Invoice.Sweep.{sweep_overdue-Conduct}
use paylink.Invoice.History.{Kept, Steps-Kept}
use paylink.Invoice.Payments.{payments, stands_paid, IsReported, Steps-IsReported, bit}

-- One call with its arguments, and with what its environment answers.
pub data Call : Type 0 where
  creating :
      (now : ℕ) (fresh merchant_id : String) (customer_id : Option String)
      (payee_addr currency : String) (lines : List LineInput) (due_at : ℕ)
      → Call
  finalizing : (http : PaylinkRequest → HttpReply) (merchant_id invoice_id : String) → Call
  voiding : (merchant_id invoice_id : String) → Call
  getting : (merchant_id invoice_id : String) → Call
  delivering : (now : ℕ) (name : String) (entity_id pl_id : Option String) → Call
  sweeping : (now : ℕ) → Call

unfoldable pub perform : Call → State → State
perform (creating now fresh m c payee currency lines due) s =
    (request (create now fresh m c payee currency lines due) s).1
perform (finalizing http m i) s = (request (finalize http m i) s).1
perform (voiding m i) s = (request (void_invoice m i) s).1
perform (getting m i) s = (request (get m i) s).1
perform (delivering now name entity_id pl_id) s = (request (handle now name entity_id pl_id) s).1
perform (sweeping now) s = (request (sweep_overdue now) s).1

unfoldable pub perform_all : List Call → State → State
perform_all [] s = s
perform_all (call ∷ calls) s = perform_all calls (perform call s)

abbrev pub no_invoices : InvoiceDb
no_invoices = record { invoices = []; lines = []; events = [] }

abbrev pub new_service : State
new_service = record { stored = no_invoices; working = no_invoices; published = [] }

-- What a run of the service has done by the time it is in a state.
record Course (s s' : State) : Type 0 where
  reported : List InvoiceEvent
  steps : Steps s.stored s'.stored
  stored_events : s'.stored.events ≡ s.stored.events ++ reported
  echoed : s'.published ≡ s.published ++ reported

Conduct-Course :
    {A : Type 0} {s : State} {r : Result InvoiceError A × State} → Conduct s r → Course s r.1
Conduct-Course {s = s} (refused e s' kept quiet) = record {
  reported = [];
  steps = subst (Steps s.stored) (sym kept) here;
  stored_events = ap (λ d. d.events) kept ∙ sym (append-nil s.stored.events);
  echoed = quiet ∙ sym (append-nil s.published);
}
Conduct-Course (served a s' es steps stored echoed) = record {
  reported = es;
  steps = steps;
  stored_events = stored;
  echoed = echoed;
}

idle : (s : State) → Course s (record s { working = s.stored })
idle s = record {
  reported = [];
  steps = here;
  stored_events = sym (append-nil s.stored.events);
  echoed = sym (append-nil s.published);
}

perform-Course : (call : Call) (s : State) → IsValid s.stored → Course s (perform call s)
unfolding perform
perform-Course (creating now fresh m c payee currency lines due) s v =
    Conduct-Course (create-Conduct now fresh m c payee currency lines due s)
perform-Course (finalizing http m i) s v = Conduct-Course (finalize-Conduct http m i s v)
perform-Course (voiding m i) s v = Conduct-Course (void_invoice-Conduct m i s v)
perform-Course (getting m i) s v = Conduct-Course (get-Conduct m i s)
perform-Course (delivering now name entity_id pl_id) s v =
    elim (handle-state now name entity_id pl_id s) [
      | inl e ↦ subst (Course s) (sym e) (idle s)
      | inr (p, e) ↦ subst (Course s) (sym e) (Conduct-Course (mark_paid_by_plid-Conduct now p s v))
    ]
perform-Course (sweeping now) s v = Conduct-Course (sweep_overdue-Conduct now s v)

perform_all-Course :
    (calls : List Call) (s : State) → IsValid s.stored → Course s (perform_all calls s)
unfolding perform_all
perform_all-Course [] s v = record {
  reported = [];
  steps = here;
  stored_events = sym (append-nil s.stored.events);
  echoed = sym (append-nil s.published);
}
perform_all-Course (call ∷ calls) s v =
    let first = perform-Course call s v in
    let rest = perform_all-Course calls (perform call s) (Steps-IsValid first.steps v) in
    record {
      reported = first.reported ++ rest.reported;
      steps = Steps-trans first.steps rest.steps;
      stored_events =
          rest.stored_events
          ∙ ap (λ es. es ++ rest.reported) first.stored_events
          ∙ append_assoc s.stored.events first.reported rest.reported;
      echoed =
          rest.echoed
          ∙ ap (λ es. es ++ rest.reported) first.echoed
          ∙ append_assoc s.published first.reported rest.reported;
    }

no_invoices-IsValid : IsValid no_invoices
no_invoices-IsValid = record { dict = tt; keyed = tt; sound = tt }

nothing_paid : IsReported no_invoices
unfolding payments stands_paid lookup
nothing_paid k = refl

-- After any calls on a new database no identifier is listed twice, each row stands under its own,
-- its total is its subtotal and tax, it is paid exactly when it has a time of payment, and it has a
-- PayLink if it is open, overdue or paid and none if it is a draft.
pub perform_all-IsValid : (calls : List Call) → IsValid (perform_all calls new_service).stored
perform_all-IsValid calls =
    Steps-IsValid (perform_all-Course calls new_service no_invoices-IsValid).steps
      no_invoices-IsValid

-- After any calls on a new database, what the publisher was given is exactly what the outbox holds,
-- in the same order.
perform_all-published :
    (calls : List Call)
    → (perform_all calls new_service).published ≡ (perform_all calls new_service).stored.events
perform_all-published calls =
    let course = perform_all-Course calls new_service no_invoices-IsValid in
    course.echoed ∙ sym course.stored_events

-- After any calls on a new database, the outbox holds one event of payment for an identifier when
-- the invoice under it is stored as paid, and none otherwise.
pub perform_all-payments :
    (calls : List Call) (k : String)
    → let d = (perform_all calls new_service).stored in payments k d.events ≡ bit (stands_paid k d)
perform_all-payments calls k =
    Steps-IsReported (perform_all-Course calls new_service no_invoices-IsValid).steps nothing_paid k

-- An invoice that is stored in a valid database is, after any calls, still stored with the same
-- merchant, payee, currency, total and time due; its rank has not fallen, and if it was paid or
-- void it is unchanged.
pub perform_all-Kept :
    (calls : List Call) (s : State) (k : String) (row : InvoiceRow)
    → IsValid s.stored
    → lookup k s.stored.invoices ≡ some row
    → Kept k row (perform_all calls s).stored
perform_all-Kept calls s k row v = Steps-Kept k row (perform_all-Course calls s v).steps
