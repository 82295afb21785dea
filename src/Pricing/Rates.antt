-- ===== src/Pricing/Rates.antt =====
-- The rows of linkmint-backend/fee-pricing-service/app/db/models.py that a quote reads and writes,
-- their queries in app/db/repositories.py, and app/domain/fx_service.py. Parameters are what Redis
-- holds under a pair of currencies (a text that cannot be decoded is a miss), the provider of rates
-- and the fallback table. What is given to the publisher and to Redis stands in one order.
use paylink.Prelude.{
  ℕ, String, Bool, true, false, ◌&&◌, if◌then◌else◌, Option, none, some, List, [], ◌∷◌, ◌++◌, Table,
  lookup, string_eq, ◌==◌, upper, Session, Exec, ⊤, pure, ◌>>=◌, ◌>>◌, or_raise, write, commit,
  publish,
}
use paylink.Pricing.Quote.{Rate, QuoteResult, PricingError, fx_unavailable}

pub record TierRow : Type 0 where
  pub display_name : String
  pub platform_pct_bps : ℕ
  pub platform_fixed : ℕ
  pub fixed_currency : String
  pub active : Bool

pub record RailFeeRow : Type 0 where
  pub rail : String
  -- `none` for all tiers
  pub tier : Option String
  pub pct_bps : ℕ
  pub fixed : ℕ
  pub fixed_currency : String
  pub active : Bool

pub record MerchantPricingRow : Type 0 where
  pub org_id : Option String
  pub tier : String
  pub effective_at : ℕ
  pub source : String

pub record FxRateRow : Type 0 where
  pub base_currency : String
  pub quote_currency : String
  pub coefficient : ℕ
  pub decimals : ℕ
  pub source : String

pub record QuoteRow : Type 0 where
  pub merchant_id : String
  pub tier : String
  pub rail : String
  pub gross : ℕ
  pub currency : String
  pub settle_currency : String
  pub platform_fee : ℕ
  pub rail_fee : ℕ
  pub net : ℕ
  -- the three columns of the rate
  pub fx : Option Rate
  pub breakdown : QuoteResult

-- a `datetime` in UTC: the parts that a period is made of, and the whole as a number
pub record Moment : Type 0 where
  pub year : ℕ
  pub month : ℕ
  pub at : ℕ

pub record PlatformFeeAccrualRow : Type 0 where
  pub id : ℕ
  pub merchant_id : String
  pub period : String
  pub amount : ℕ
  pub currency : String
  pub source_ref : String
  pub quote_id : Option String
  -- `none` until it is billed
  pub invoice_id : Option String
  pub occurred_at : Moment

pub record PlatformFeeInvoiceRow : Type 0 where
  pub merchant_id : String
  pub period : String
  pub currency : String
  pub total_fee : ℕ
  pub line_count : ℕ
  pub status : String

-- an event's name and payload
pub data PricingEvent : Type 0 where
  rate_updated : (base quote : String) (rate : Rate) → PricingEvent
  quote_issued : (quote_id : String) (row : QuoteRow) → PricingEvent
  platform_fee_issued : (invoice_id : String) (row : PlatformFeeInvoiceRow) → PricingEvent

-- what leaves the service: an event that is published, a rate that Redis keeps, or a fee for the
-- ledger
pub data Notice : Type 0 where
  event : PricingEvent → Notice
  cached : (base quote : String) (rate : Rate) → Notice
  fee_posted : (invoice_id : String) (row : PlatformFeeInvoiceRow) → Notice

pub record PricingDb : Type 0 where
  pub tiers : Table String TierRow
  pub rail_fees : List RailFeeRow
  pub merchant_pricing : Table String MerchantPricingRow
  pub fx_rates : List FxRateRow
  pub quotes : List (String × QuoteRow)
  pub accruals : List PlatformFeeAccrualRow
  -- the sequence of the accruals' identifiers
  pub next_accrual : ℕ
  pub invoices : List (String × PlatformFeeInvoiceRow)
  pub events : List PricingEvent

abbrev pub State : Type 0
State = Session PricingDb Notice

abbrev pub Method : Type 0 → Type 0
Method A = Exec PricingError State A

abbrev pub get_tier : String → PricingDb → Option TierRow
get_tier tier d = lookup tier d.tiers

-- the first active row of a rail that is for a tier, `none` for all of them
unfoldable pub rail_row : String → Option String → List RailFeeRow → Option RailFeeRow
rail_row rail tier [] = none
rail_row rail tier (row ∷ rows) =
    let rest = rail_row rail tier rows in
    if row.rail == rail && row.active && elim tier [
      | none ↦ elim row.tier [ none ↦ true | some other ↦ false ]
      | some name ↦ elim row.tier [ none ↦ false | some other ↦ other == name ]
    ]
    then some row
    else rest

-- A row for the tier comes before one for all tiers.
unfoldable pub get_rail_fee : String → String → PricingDb → Option RailFeeRow
unfolding rail_row
get_rail_fee rail tier d = elim (rail_row rail (some tier) d.rail_fees) [
  | some row ↦ some row
  | none ↦ rail_row rail none d.rail_fees
]

abbrev pub get_merchant_pricing : String → PricingDb → Option MerchantPricingRow
get_merchant_pricing merchant_id d = lookup merchant_id d.merchant_pricing

abbrev pub insert_fx_rate : FxRateRow → Method ⊤
insert_fx_rate row = write (λ d. record d { fx_rates = d.fx_rates ++ row ∷ [] })

abbrev pub add_event : PricingEvent → Method ⊤
add_event e = write (λ d. record d { events = d.events ++ e ∷ [] })

-- what the service asks outside its database
pub record Sources : Type 0 where
  pub redis : (base quote : String) → Option Rate
  pub provider : (base quote : String) → Option Rate
  pub fallback : (base quote : String) → Option Rate

-- the provider's rate, or the one of the fallback table
abbrev pub fetched : Sources → String → String → Option Rate
fetched sources base quote = elim (sources.provider base quote) [
  | some rate ↦ some rate
  | none ↦ sources.fallback base quote
]

unfoldable pub store_rate : String → String → Rate → Method Rate
store_rate base quote rate = do
  publish (cached base quote rate)
  insert_fx_rate (record {
    base_currency = base;
    quote_currency = quote;
    coefficient = rate.coefficient;
    decimals = rate.decimals;
    source = rate.source;
  })
  add_event (rate_updated base quote rate)
  publish (event (rate_updated base quote rate))
  commit
  pure rate

unfoldable pub rate_in : Sources → (base quote : String) → Method Rate
unfolding store_rate
rate_in sources base quote = elim (sources.redis base quote) [
  | some rate ↦ pure rate
  | none ↦ do
    rate ← or_raise (fetched sources base quote) fx_unavailable
    store_rate base quote rate
]

unfoldable pub rate_for : Sources → (now : ℕ) (base quote : String) → Method Rate
unfolding rate_in
rate_for sources now base quote =
    if upper base == upper quote
    then pure (record {
      base = upper base;
      quote = upper quote;
      coefficient = 1;
      decimals = 0;
      source = "identity";
      fetched_at = now;
    })
    else rate_in sources (upper base) (upper quote)
