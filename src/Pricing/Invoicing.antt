-- ===== src/Pricing/Invoicing.antt =====
-- linkmint-backend/fee-pricing-service/app/domain/invoicing_service.py with its queries in
-- app/db/repositories.py. Parameters are the database's order of merchants' identifiers and the
-- identifiers of `uuid.uuid4()`, by the number of invoices there are when one is drawn. The digits of
-- a period are those of ASCII, and a period has a year of four digits. Log lines are not modelled.
use Prim.Native.Char.{Char, code}
use Prim.Native.String.{◌++◌ as append}
use paylink.Prelude.{
  ℕ, suc, ◌+◌, String, Bool, true, false, not, ◌&&◌, ◌||◌, if◌then◌else◌, Option, none, some,
  is_some, List, [], ◌∷◌, ◌++◌, length, map, any, select, sort_by, lookup, string_eq, nat_eq, ◌==◌,
  leb, ltb, upper, show, ⊤, pure, raise_if, ◌>>=◌, ◌>>◌, query, write, commit, publish,
}
use paylink.Pricing.Quote.{invalid_period, integrity_error}
use paylink.Pricing.Rates.{
  Moment, PlatformFeeAccrualRow, PlatformFeeInvoiceRow, platform_fee_issued, event, fee_posted,
  PricingDb, Method, add_event,
}

-- `strftime("%Y-%m")`
unfoldable pub period_of : Moment → String
period_of m =
    append (show m.year)
      (append "-" (if ltb m.month 10 then append "0" (show m.month) else show m.month))

-- a character of a class, before what the rest has to match
unfoldable pub char_then : (Char → Bool) → (String → Bool) → String → Bool
char_then p rest String.[] = false
char_then p rest (String.◌∷◌ c s) = p c && rest s

abbrev between : (low high : ℕ) → Char → Bool
between low high c = leb low (code c) && leb (code c) high

-- `$` stands before a line feed at the end, too.
unfoldable pub ends : String → Bool
ends String.[] = true
ends (String.◌∷◌ c s) = code c == 10 && elim s [ String.[] ↦ true | String.◌∷◌ _ _ ↦ false ]

-- `_PERIOD_RE`
unfoldable pub is_period : String → Bool
unfolding char_then ends
is_period s =
    let digit = between 48 57 in
    let month : String → Bool = λ m.
      char_then (between 48 48) (char_then (between 49 57) ends) m
      || char_then (between 49 49) (char_then (between 48 50) ends) m in
    char_then digit
      (char_then digit (char_then digit (char_then digit (char_then (between 45 45) month)))) s

pub record AccrualResult : Type 0 where
  pub accrual_id : ℕ
  pub inserted : Bool

-- the row that the unique index finds
unfoldable pub same_source : String → String → List PlatformFeeAccrualRow → Option ℕ
same_source merchant_id source_ref [] = none
same_source merchant_id source_ref (row ∷ rows) =
    if row.merchant_id == merchant_id && row.source_ref == source_ref
    then some row.id
    else same_source merchant_id source_ref rows

-- The sequence gives an identifier to an insert that finds its row there, too.
unfoldable pub insert_accrual : PlatformFeeAccrualRow → Method AccrualResult
unfolding same_source
insert_accrual row = do
  existing ← query (λ d. same_source row.merchant_id row.source_ref d.accruals)
  id ← query (λ d. d.next_accrual)
  write (λ d. record d {
    accruals = elim existing [
      | some _ ↦ d.accruals
      | none ↦ d.accruals ++ record row { id = id } ∷ []
    ];
    next_accrual = suc d.next_accrual;
  })
  pure (elim existing [
    | some old ↦ record { accrual_id = old; inserted = false }
    | none ↦ record { accrual_id = id; inserted = true }
  ])

-- A new accrual is not billed. The database replaces the identifier.
abbrev pub new_accrual :
    (merchant_id : String) (amount : ℕ) (currency source_ref : String) (occurred_at : Moment)
    (quote_id : Option String)
    → PlatformFeeAccrualRow
new_accrual merchant_id amount currency source_ref occurred_at quote_id = record {
  id = 0;
  merchant_id = merchant_id;
  period = period_of occurred_at;
  amount = amount;
  currency = upper currency;
  source_ref = source_ref;
  quote_id = quote_id;
  invoice_id = none;
  occurred_at = occurred_at;
}

unfoldable pub record_accrual :
    (merchant_id : String) (amount : ℕ) (currency source_ref : String) (occurred_at : Moment)
    (quote_id : Option String)
    → Method AccrualResult
record_accrual merchant_id amount currency source_ref occurred_at quote_id = do
  r ← insert_accrual (new_accrual merchant_id amount currency source_ref occurred_at quote_id)
  commit
  pure r

abbrev pub is_unbilled : (period : String) → Option String → PlatformFeeAccrualRow → Bool
is_unbilled period merchant_id row =
    row.period == period
    && not (is_some row.invoice_id)
    && elim merchant_id [ none ↦ true | some wanted ↦ row.merchant_id == wanted ]

module _ (precedes : String → String → Bool) where
  -- `ORDER BY merchant_id, id`
  abbrev pub in_order : PlatformFeeAccrualRow → PlatformFeeAccrualRow → Bool
  in_order a b =
      if a.merchant_id == b.merchant_id then leb a.id b.id else precedes a.merchant_id b.merchant_id

  abbrev pub unbilled_accruals :
      (period : String) → Option String → PricingDb → List PlatformFeeAccrualRow
  unbilled_accruals period merchant_id d =
      sort_by in_order (select (is_unbilled period merchant_id) d.accruals)

-- an entry of the dict of accruals by merchant and currency
pub record Group : Type 0 where
  pub merchant_id : String
  pub currency : String
  pub rows : List PlatformFeeAccrualRow

unfoldable pub put_group : PlatformFeeAccrualRow → List Group → List Group
put_group row [] =
    record { merchant_id = row.merchant_id; currency = row.currency; rows = row ∷ [] } ∷ []
put_group row (g ∷ groups) =
    if g.merchant_id == row.merchant_id && g.currency == row.currency
    then record g { rows = g.rows ++ row ∷ [] } ∷ groups
    else g ∷ put_group row groups

unfoldable pub group_rows : List Group → List PlatformFeeAccrualRow → List Group
unfolding put_group
group_rows groups [] = groups
group_rows groups (row ∷ rows) = group_rows (put_group row groups) rows

abbrev pub is_for_period : (merchant_id period : String) → String × PlatformFeeInvoiceRow → Bool
is_for_period merchant_id period (id, inv) = inv.merchant_id == merchant_id && inv.period == period

abbrev pub has_invoice : (merchant_id period : String) → PricingDb → Bool
has_invoice merchant_id period d = any (is_for_period merchant_id period) d.invoices

-- The primary key and the unique index on merchant and period refuse a second row.
unfoldable pub insert_invoice : String → PlatformFeeInvoiceRow → Method ⊤
insert_invoice id row = do
  raise_if
      (← query (λ d. is_some (lookup id d.invoices) || has_invoice row.merchant_id row.period d))
      integrity_error
  write (λ d. record d { invoices = d.invoices ++ (id, row) ∷ [] })

abbrev pub has_id : List PlatformFeeAccrualRow → PlatformFeeAccrualRow → Bool
has_id rows row = any (λ r. r.id == row.id) rows

abbrev pub mark :
    List PlatformFeeAccrualRow → String → PlatformFeeAccrualRow → PlatformFeeAccrualRow
mark rows id row = if has_id rows row then record row { invoice_id = some id } else row

abbrev pub mark_accruals_invoiced : List PlatformFeeAccrualRow → String → Method ⊤
mark_accruals_invoiced rows id = write (λ d. record d { accruals = map (mark rows id) d.accruals })

abbrev pub fees_of : List PlatformFeeAccrualRow → ℕ
fees_of [] = 0
fees_of (row ∷ rows) = row.amount + fees_of rows

pub record GeneratedInvoice : Type 0 where
  pub invoice_id : String
  pub merchant_id : String
  pub currency : String
  pub total_fee : ℕ
  pub line_count : ℕ

abbrev pub invoice_row : (period : String) → Group → PlatformFeeInvoiceRow
invoice_row period g = record {
  merchant_id = g.merchant_id;
  period = period;
  currency = g.currency;
  total_fee = fees_of g.rows;
  line_count = length g.rows;
  status = "ISSUED";
}

module _ (ledger_posting_enabled : Bool) (fresh : ℕ → String) (period : String) where
  -- a round for a group that has no invoice yet
  unfoldable pub bill : Group → Method GeneratedInvoice
  unfolding insert_invoice
  bill g = do
    id ← query (λ d. fresh (length d.invoices))
    let row = invoice_row period g
    insert_invoice id row
    mark_accruals_invoiced g.rows id
    if ledger_posting_enabled then publish (fee_posted id row) else pure tt
    add_event (platform_fee_issued id row)
    publish (event (platform_fee_issued id row))
    pure (record {
      invoice_id = id;
      merchant_id = g.merchant_id;
      currency = g.currency;
      total_fee = row.total_fee;
      line_count = row.line_count;
    })

  -- `none` for a group that is skipped
  unfoldable pub bill_or_skip : Group → Method (Option GeneratedInvoice)
  bill_or_skip g = do
    existing ← query (has_invoice g.merchant_id period)
    if existing then pure none else do i ← bill g; pure (some i)

  abbrev pub counted :
      Option GeneratedInvoice → List GeneratedInvoice × ℕ → List GeneratedInvoice × ℕ
  counted none (generated, skipped) = (generated, suc skipped)
  counted (some i) (generated, skipped) = (i ∷ generated, skipped)

  unfoldable pub bill_groups : List Group → Method (List GeneratedInvoice × ℕ)
  bill_groups [] = pure ([], 0)
  bill_groups (g ∷ groups) = do
    first ← bill_or_skip g
    rest ← bill_groups groups
    pure (counted first rest)

pub record GenerationResult : Type 0 where
  pub period : String
  pub generated : List GeneratedInvoice
  pub skipped_existing : ℕ

unfoldable pub generate_for_period :
    (precedes : String → String → Bool) (ledger_posting_enabled : Bool) (fresh : ℕ → String)
    (period : String) (merchant_id : Option String)
    → Method GenerationResult
generate_for_period precedes ledger_posting_enabled fresh period merchant_id = do
  raise_if (not (is_period period)) invalid_period
  rows ← query (unbilled_accruals precedes period merchant_id)
  (generated, skipped) ← bill_groups ledger_posting_enabled fresh period (group_rows [] rows)
  commit
  pure (record { period = period; generated = generated; skipped_existing = skipped })

-- a tick of app/sweeper/run.py
unfoldable pub sweep :
    (precedes : String → String → Bool) (ledger_posting_enabled : Bool) (fresh : ℕ → String)
    (now : Moment)
    → Method GenerationResult
sweep precedes ledger_posting_enabled fresh now =
    generate_for_period precedes ledger_posting_enabled fresh (period_of now) none
