-- ===== src/Pricing/InvoiceTests.antt =====
-- The invoicing of linkmint-backend/fee-pricing-service on concrete accruals.
use paylink.Prelude.{
  ℕ, String, Bool, true, false, none, some, List, [], ◌∷◌, map, string_eq, nat_eq, upper, show,
  show_within, sort_by, insert_by, ◌≡◌, refl,
}
use paylink.Pricing.Rates.{State, PricingDb, Moment, PlatformFeeAccrualRow}
use paylink.Pricing.Invoicing.{
  period_of, is_period, char_then, ends, same_source, insert_accrual, record_accrual, put_group,
  group_rows, insert_invoice, bill, bill_or_skip, bill_groups, generate_for_period, sweep,
  has_invoice,
}
use paylink.Pricing.Books.{Books}
use paylink.Pricing.Billing.{find_accrual}
use paylink.Pricing.Accounting.{
  Call, accruing, generating, sweeping, serve, serve_all, opened, serve_all-Books,
  serve_all-stranded,
}

march_period : period_of (record { year = 2026; month = 3; at = 0 }) ≡ "2026-03"
unfolding period_of show show_within
march_period = refl

good_period : is_period "2026-12" ≡ true
unfolding is_period char_then ends
good_period = refl

bad_period : is_period "2026-13" ≡ false
unfolding is_period char_then ends
bad_period = refl

abbrev in_march : ℕ → Moment
in_march n = record { year = 2026; month = 3; at = n }

abbrev precedes : String → String → Bool
precedes a b = true

abbrev fresh : ℕ → String
fresh n = show n

abbrev no_tables : PricingDb
no_tables = record {
  tiers = [];
  rail_fees = [];
  merchant_pricing = [];
  fx_rates = [];
  quotes = [];
  accruals = [];
  next_accrual = 1;
  invoices = [];
  events = [];
}

-- A fee accrues in March and the sweep bills it, before the next fee of that month.
abbrev march : List Call
march =
    accruing "m" 100 "KES" "a" (in_march 1) none
    ∷ sweeping (in_march 2)
    ∷ accruing "m" 50 "KES" "b" (in_march 3) none
    ∷ []

abbrev april : List Call
april = sweeping (in_march 4) ∷ generating "2026-03" none ∷ generating "2026-04" (some "m") ∷ []

abbrev second_fee : PlatformFeeAccrualRow
second_fee = record {
  id = 2;
  merchant_id = "m";
  period = "2026-03";
  amount = 50;
  currency = "KES";
  source_ref = "b";
  quote_id = none;
  invoice_id = none;
  occurred_at = in_march 3;
}

abbrev after_march : State
after_march = serve_all precedes true fresh march (opened no_tables)

second_fee_found : find_accrual 2 after_march.stored.accruals ≡ some second_fee
unfolding serve_all serve record_accrual insert_accrual same_source sweep generate_for_period
    is_period char_then ends period_of show show_within sort_by insert_by group_rows put_group
    bill_groups bill_or_skip bill insert_invoice find_accrual upper
second_fee_found = refl

march_invoiced : has_invoice "m" "2026-03" after_march.stored ≡ true
unfolding serve_all serve record_accrual insert_accrual same_source sweep generate_for_period
    is_period char_then ends period_of show show_within sort_by insert_by group_rows put_group
    bill_groups bill_or_skip bill insert_invoice upper
march_invoiced = refl

march_fees : map (λ (id, inv). inv.total_fee) after_march.stored.invoices ≡ 100 ∷ []
unfolding serve_all serve record_accrual insert_accrual same_source sweep generate_for_period
    is_period char_then ends period_of show show_within sort_by insert_by group_rows put_group
    bill_groups bill_or_skip bill insert_invoice upper
march_fees = refl

serve_all-Books_example :
    Books after_march.stored.accruals after_march.stored.next_accrual after_march.stored.invoices
serve_all-Books_example = serve_all-Books precedes true fresh march no_tables

serve_all-stranded_example :
    find_accrual 2 (serve_all precedes true fresh april after_march).stored.accruals
    ≡ some second_fee
serve_all-stranded_example =
    serve_all-stranded precedes true fresh march april no_tables 2 second_fee second_fee_found
      march_invoiced
