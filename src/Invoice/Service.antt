-- ===== src/Invoice/Service.antt =====
-- linkmint-backend/invoice-subscription/app/domain/services.py, with the tables and queries of
-- app/db/models.py and app/db/repositories.py, the client of app/paylinks/client.py and the consumer
-- of app/events/consumer.py. The reply of paylink-service is a parameter. The unique index on
-- `pl_id` and the primary key refuse at the flush; that a lost connection may fail a commit is not
-- modelled, nor are log lines.
use Prim.Native.String.{◌++◌ as append}
use paylink.Prelude.{
  is_some, ℕ, ⊤, String, Bool, true, false, not, ◌&&◌, Option, none, some, List, [], ◌∷◌, ◌++◌, map,
  Exec, pure, or_raise, raise_if, ◌>>=◌, ◌>>◌, ltb, leb, if◌then◌else◌, ◌==◌, string_eq, nat_eq,
  Table, lookup, insert, select, take, sort_by, length, Session, commit, publish, write, query,
}
use paylink.Invoice.Model.{
  InvoiceStatus, draft, opened, paid, void, overdue, LineInput, ComputedLine, ComputedTotals,
  compute_totals, is_draft, is_opened, is_paid, is_void, is_payable,
}

pub record InvoiceRow : Type 0 where
  pub invoice_id : String
  pub merchant_id : String
  pub customer_id : Option String
  pub payee_addr : String
  pub pl_id : Option String
  pub currency : String
  pub subtotal : ℕ
  pub tax : ℕ
  pub total : ℕ
  pub status : InvoiceStatus
  pub due_at : ℕ
  pub paid_at : Option ℕ
  pub created_at : ℕ

pub record InvoiceLineRow : Type 0 where
  pub invoice_id : String
  pub line : ComputedLine

-- an event with what its payload carries beside the status that its name implies
pub data InvoiceEvent : Type 0 where
  invoice_created : (invoice_id merchant_id currency : String) (total : ℕ) → InvoiceEvent
  invoice_finalized : (invoice_id pl_id merchant_id currency : String) (total : ℕ) → InvoiceEvent
  invoice_voided : (invoice_id merchant_id : String) → InvoiceEvent
  invoice_paid : (invoice_id pl_id merchant_id currency : String) (total : ℕ) → InvoiceEvent
  invoice_overdue : (invoice_id merchant_id currency : String) (due_at total : ℕ) → InvoiceEvent

-- the tables of the schema
pub record InvoiceDb : Type 0 where
  pub invoices : Table String InvoiceRow
  pub lines : List InvoiceLineRow
  pub events : List InvoiceEvent

pub data InvoiceError : Type 0 where
  invoice_not_found invalid_state paylink_unavailable already_paid integrity_error : InvoiceError

abbrev pub State : Type 0
State = Session InvoiceDb InvoiceEvent

abbrev pub Method : Type 0 → Type 0
Method A = Exec InvoiceError State A

-- what `POST /v1/paylinks` is sent
pub record PaylinkRequest : Type 0 where
  pub receiver : String
  pub amount : ℕ
  pub currency : String
  pub expiry : ℕ
  pub usage : String
  pub invoice_id : String
  pub idempotency_key : String

-- and what comes of it: no answer, or a status with a body, which may be no JSON, and may lack `pl_id`
pub data HttpReply : Type 0 where
  unreachable : HttpReply
  response : (status : ℕ) (body : Option (Option String)) → HttpReply

-- `PaylinkClient.create`; `none` is its `PaylinkError`
unfoldable pub paylink_create : HttpReply → Option (Option String)
paylink_create unreachable = none
paylink_create (response status body) = if status == 201 then body else none

-- `str(pl.get("pl_id") or "")`, and the test that it is not empty
abbrev pub nonempty : Option String → Option String
nonempty none = none
nonempty (some p) = if p == "" then none else some p

abbrev pub rows_of : Table String InvoiceRow → List InvoiceRow
rows_of [] = []
rows_of (entry ∷ t) = entry.1 ∷ rows_of t

abbrev pub has_plid : String → InvoiceRow → Bool
has_plid p row = elim row.pl_id [ none ↦ false | some q ↦ q == p ]

-- `SELECT … WHERE pl_id = p`, of which the unique index leaves one row at most
unfoldable pub get_by_plid : String → Table String InvoiceRow → Option InvoiceRow
get_by_plid p [] = none
get_by_plid p (entry ∷ t) = if has_plid p entry.1 then some entry.1 else get_by_plid p t

-- `_emit`: the outbox row, and the echo in the process
abbrev pub emit : InvoiceEvent → Method ⊤
emit event = do write (λ d. record d { events = d.events ++ event ∷ [] }); publish event

-- an assignment to a fetched row
abbrev pub save : InvoiceRow → Method ⊤
save row = write (λ d. record d { invoices = insert row.invoice_id row d.invoices })

unfoldable pub load_owned : String → String → Method InvoiceRow
load_owned merchant_id invoice_id = do
  row ← or_raise (← query (λ d. lookup invoice_id d.invoices)) invoice_not_found
  raise_if (not (row.merchant_id == merchant_id)) invoice_not_found
  pure row

abbrev pub new_row :
    (now : ℕ) (fresh merchant_id : String) (customer_id : Option String)
    (payee_addr currency : String) (totals : ComputedTotals) (due_at : ℕ)
    → InvoiceRow
new_row now fresh merchant_id customer_id payee_addr currency totals due_at = record {
  invoice_id = fresh;
  merchant_id = merchant_id;
  customer_id = customer_id;
  payee_addr = payee_addr;
  pl_id = none;
  currency = currency;
  subtotal = totals.subtotal;
  tax = totals.tax;
  total = totals.total;
  status = draft;
  due_at = due_at;
  paid_at = none;
  created_at = now;
}

abbrev pub line_row : String → ComputedLine → InvoiceLineRow
line_row invoice_id line = record { invoice_id = invoice_id; line = line }

abbrev pub paylink_request : InvoiceRow → String → PaylinkRequest
paylink_request row invoice_id = record {
  receiver = row.payee_addr;
  amount = row.total;
  currency = row.currency;
  expiry = row.due_at;
  usage = "single";
  invoice_id = invoice_id;
  idempotency_key = append "invoice-" invoice_id;
}

-- `fresh` is the value of `uuid.uuid4()`
unfoldable pub create :
    (now : ℕ) (fresh merchant_id : String) (customer_id : Option String)
    (payee_addr currency : String) (lines : List LineInput) (due_at : ℕ)
    → Method InvoiceRow
create now fresh merchant_id customer_id payee_addr currency lines due_at = do
  let totals = compute_totals lines
  let row = new_row now fresh merchant_id customer_id payee_addr currency totals due_at
  raise_if (← query (λ d. is_some (lookup fresh d.invoices))) integrity_error
  save row
  write (λ d. record d { lines = d.lines ++ map (line_row fresh) totals.lines })
  emit (invoice_created fresh merchant_id currency totals.total)
  commit
  pure row

unfoldable pub finalize :
    (http : PaylinkRequest → HttpReply) (merchant_id invoice_id : String) → Method InvoiceRow
unfolding load_owned
finalize http merchant_id invoice_id = do
  row ← load_owned merchant_id invoice_id
  raise_if (not (is_draft row.status)) invalid_state
  reply ← or_raise (paylink_create (http (paylink_request row invoice_id))) paylink_unavailable
  pl_id ← or_raise (nonempty reply) paylink_unavailable
  raise_if (← query (λ d. is_some (get_by_plid pl_id d.invoices))) integrity_error
  let row' = record row { pl_id = some pl_id; status = opened }
  save row'
  emit (invoice_finalized invoice_id pl_id merchant_id row.currency row.total)
  commit
  pure row'

unfoldable pub void_invoice : (merchant_id invoice_id : String) → Method InvoiceRow
unfolding load_owned
void_invoice merchant_id invoice_id = do
  row ← load_owned merchant_id invoice_id
  raise_if (is_paid row.status) already_paid
  raise_if (is_void row.status) invalid_state
  let row' = record row { status = void }
  save row'
  emit (invoice_voided invoice_id merchant_id)
  commit
  pure row'

-- `get`: the row with its lines, in the order of their insertion
unfoldable pub get : (merchant_id invoice_id : String) → Method (InvoiceRow × List InvoiceLineRow)
unfolding load_owned
get merchant_id invoice_id = do
  row ← load_owned merchant_id invoice_id
  lines ← query (λ d. select (λ l. l.invoice_id == invoice_id) d.lines)
  pure (row, lines)

-- the branch that marks an open or overdue invoice
abbrev pub mark_paid : (now : ℕ) (pl_id : String) (row : InvoiceRow) → Method Bool
mark_paid now pl_id row = do
  save (record row { status = paid; paid_at = some now })
  emit (invoice_paid row.invoice_id pl_id row.merchant_id row.currency row.total)
  commit
  pure true

unfoldable pub mark_paid_by_plid : (now : ℕ) (pl_id : String) → Method Bool
mark_paid_by_plid now pl_id = do
  found ← query (λ d. get_by_plid pl_id d.invoices)
  elim found [
    | none ↦ pure false
    | some row ↦ if is_payable row.status then mark_paid now pl_id row else pure false
  ]

-- `find_overdue`
unfoldable pub find_overdue : ℕ → Table String InvoiceRow → List InvoiceRow
find_overdue now t = take 100 (
    sort_by (λ a b. leb a.due_at b.due_at)
      (select (λ r. is_opened r.status && ltb r.due_at now) (rows_of t)))

-- the loop of `sweep_overdue`
unfoldable pub sweep_each : List InvoiceRow → Method ⊤
sweep_each [] = pure tt
sweep_each (row ∷ rows) = do
  save (record row { status = overdue })
  emit (invoice_overdue row.invoice_id row.merchant_id row.currency row.due_at row.total)
  sweep_each rows

unfoldable pub sweep_overdue : (now : ℕ) → Method ℕ
unfolding sweep_each
sweep_overdue now = do
  rows ← query (λ d. find_overdue now d.invoices)
  sweep_each rows
  if ltb 0 (length rows) then commit else pure tt
  pure (length rows)
