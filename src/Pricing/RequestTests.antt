-- ===== src/Pricing/RequestTests.antt =====
-- A request for quotes to linkmint-backend/fee-pricing-service on concrete tables.
use paylink.Prelude.{
  ℕ, String, true, none, some, [], ◌∷◌, map, lookup, string_eq, upper, err, request, round0, ◌≡◌,
  refl,
}
use paylink.Pricing.Quote.{
  Rate, compute_quote, percentage, settle, convert, finish, exchange, rail_not_found,
}
use paylink.Pricing.Rates.{
  State, PricingDb, Sources, rail_row, get_rail_fee, store_rate, rate_in, rate_for,
}
use paylink.Pricing.Service.{
  tier_fee, rail_fee, insert_quote, issue, issue_rails, issue_tiers, lock_rate,
  resolve_merchant_tier, tier_names, quote,
}
use paylink.Pricing.Requests.{StoresAll, asked, quote-StoresAll}

abbrev usd_kes : Rate
usd_kes = record {
  base = "USD";
  quote = "KES";
  coefficient = 1295;
  decimals = 1;
  source = "fallback";
  fetched_at = 0;
}

-- Only the fallback table knows the rate.
abbrev sources : Sources
sources = record {
  redis = λ base quote. none;
  provider = λ base quote. none;
  fallback = λ base quote. some usd_kes;
}

abbrev tables : PricingDb
tables = record {
  tiers =
      (
        "standard",
        record {
          display_name = "Standard";
          platform_pct_bps = 250;
          platform_fixed = 30;
          fixed_currency = "USD";
          active = true;
        },
      )
      ∷ [];
  rail_fees =
      record {
        rail = "card";
        tier = none;
        pct_bps = 290;
        fixed = 0;
        fixed_currency = "USD";
        active = true;
      }
      ∷ [];
  merchant_pricing = [];
  fx_rates = [];
  quotes = [];
  accruals = [];
  next_accrual = 1;
  invoices = [];
  events = [];
}

abbrev start : State
start = record { stored = tables; working = tables; published = [] }

abbrev fresh : ℕ → String
fresh n = "q"

quoted_net :
    map
      (λ (id, row). row.net)
      (request
        (quote sources 0 fresh "m" 1001 "usd" "KES" ("card" ∷ []) none)
        start).1.stored.quotes
    ≡ 118745 ∷ []
unfolding quote lock_rate rate_for rate_in store_rate tier_names resolve_merchant_tier issue_tiers
    issue_rails issue rail_fee tier_fee insert_quote get_rail_fee rail_row compute_quote percentage
    settle convert finish exchange upper round0
quoted_net = refl

-- There are no fees for the second rail.
no_such_rail :
    (request (quote sources 0 fresh "m" 1001 "usd" "KES" ("card" ∷ "bank" ∷ []) none) start).0
    ≡ err rail_not_found
unfolding quote lock_rate rate_for rate_in store_rate tier_names resolve_merchant_tier issue_tiers
    issue_rails issue rail_fee tier_fee insert_quote get_rail_fee rail_row compute_quote percentage
    settle convert finish exchange upper round0
no_such_rail = refl

quote-StoresAll_example :
    StoresAll
      (asked "m" 1001 "usd" "KES" fresh)
      (("standard", "card") ∷ [])
      start
      (request (quote sources 0 fresh "m" 1001 "usd" "KES" ("card" ∷ []) none) start)
unfolding lookup
quote-StoresAll_example =
    quote-StoresAll sources 0 fresh "m" 1001 "usd" "KES" ("card" ∷ []) none start
