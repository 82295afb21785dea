-- ===== src/Pricing/Tests.antt =====
-- The quotes of linkmint-backend/fee-pricing-service on concrete payments, and the theorems about
-- them at these payments.
use paylink.Prelude.{◌+◌, ◌≤◌, ◌≡◌, refl, none, some, ok, err, upper, round0, arith}
use paylink.Pricing.Quote.{
  TierFee, RailFee, Rate, QuoteResult, compute_quote, fee_exceeds_gross, percentage, settle,
  convert, finish, exchange,
}
use paylink.Pricing.Shares.{IsFair, compute_quote_lem, compute_quote_issued}

abbrev standard : TierFee
standard = record {
  tier = "standard";
  platform_pct_bps = 250;
  platform_fixed = 30;
  fixed_currency = "usd";
}

abbrev card : RailFee
card = record { rail = "card"; pct_bps = 290; fixed = 0; fixed_currency = "USD" }

-- 1 USD is 129.5 KES
abbrev usd_kes : Rate
usd_kes = record {
  base = "USD";
  quote = "KES";
  coefficient = 1295;
  decimals = 1;
  source = "static";
  fetched_at = 0;
}

abbrev issued : QuoteResult
issued = record {
  gross = 1001;
  currency = "USD";
  gross_settled = 129630;
  settle_currency = "KES";
  platform_pct_amount = 3241;
  platform_fixed_amount = 3885;
  platform_fee = 7126;
  rail_pct_amount = 3759;
  rail_fixed_amount = 0;
  rail_fee = 3759;
  net = 118745;
  fx = some usd_kes;
}

issued_result : compute_quote 1001 "usd" "KES" standard card (some usd_kes) ≡ ok issued
unfolding compute_quote percentage settle convert finish exchange upper round0
issued_result = refl

too_small_result : compute_quote 20 "USD" "USD" standard card none ≡ err fee_exceeds_gross
unfolding compute_quote percentage settle convert finish exchange upper round0
too_small_result = refl

compute_quote_lem_example : IsFair 1001 "usd" "KES" standard card (some usd_kes) issued
compute_quote_lem_example =
    compute_quote_lem 1001 "usd" "KES" standard card (some usd_kes) issued issued_result

abbrev no_fee : TierFee
no_fee = record standard { platform_pct_bps = 0; platform_fixed = 5; fixed_currency = "USD" }

enough : percentage 10 0 + 5 + (percentage 10 290 + 0) ≤ 10
unfolding percentage round0
enough = omega arith

compute_quote_issued_example :
    (q : QuoteResult) × (compute_quote 10 "USD" "USD" no_fee card none ≡ ok q)
compute_quote_issued_example =
    compute_quote_issued 10 "USD" "USD" no_fee card none refl refl refl enough
