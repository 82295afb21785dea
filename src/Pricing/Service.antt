-- ===== src/Pricing/Service.antt =====
-- linkmint-backend/fee-pricing-service/app/domain/pricing_service.py. The identifiers of
-- `uuid.uuid4()` are an argument, by the number of quotes there are when one is drawn. Log lines are not modelled.
use paylink.Prelude.{
  ℕ, String, false, if◌then◌else◌, Option, none, some, is_some, List, [], ◌∷◌, length, ◌++◌, lookup,
  insert, string_eq, ◌==◌, upper, ⊤, pure, raise_if, lift, or_raise, ◌>>=◌, ◌>>◌, query, write,
  commit, publish,
}
use paylink.Pricing.Quote.{
  TierFee, RailFee, Rate, QuoteResult, tier_not_found, rail_not_found, merchant_pricing_not_found,
  integrity_error, compute_quote,
}
use paylink.Pricing.Rates.{
  TierRow, RailFeeRow, MerchantPricingRow, QuoteRow, quote_issued, event, PricingDb, Method,
  get_tier, get_rail_fee, get_merchant_pricing, add_event, Sources, rate_for,
}

-- `DEFAULT_TIER`
abbrev pub default_tier : String
default_tier = "standard"

-- `Rail`
abbrev pub all_rails : List String
all_rails = "mpesa" ∷ "card" ∷ "bank" ∷ "crypto" ∷ []

abbrev pub active_tier : Option TierRow → Option TierRow
active_tier none = none
active_tier (some row) = if row.active then some row else none

unfoldable pub tier_fee : String → Method TierFee
tier_fee tier = do
  found ← query (get_tier tier)
  row ← or_raise (active_tier found) tier_not_found
  pure (record {
    tier = tier;
    platform_pct_bps = row.platform_pct_bps;
    platform_fixed = row.platform_fixed;
    fixed_currency = row.fixed_currency;
  })

unfoldable pub rail_fee : (rail tier : String) → Method RailFee
rail_fee rail tier = do
  found ← query (get_rail_fee rail tier)
  row ← or_raise found rail_not_found
  pure (record {
    rail = row.rail;
    pct_bps = row.pct_bps;
    fixed = row.fixed;
    fixed_currency = row.fixed_currency;
  })

abbrev pub tier_or_default : Option MerchantPricingRow → String
tier_or_default none = default_tier
tier_or_default (some row) = row.tier

unfoldable pub resolve_merchant_tier : String → Method String
resolve_merchant_tier merchant_id = do
  found ← query (get_merchant_pricing merchant_id)
  pure (tier_or_default found)

pub record QuoteIssued : Type 0 where
  pub quote_id : String
  pub row : QuoteRow

-- what stays the same for all quotes of a request
pub record QuoteRequest : Type 0 where
  pub merchant_id : String
  pub gross : ℕ
  pub currency : String
  pub settle_currency : String
  pub fx : Option Rate
  pub fresh : ℕ → String

abbrev pub quote_row : QuoteRequest → String → String → QuoteResult → QuoteRow
quote_row req tname rname qr = record {
  merchant_id = req.merchant_id;
  tier = tname;
  rail = rname;
  gross = req.gross;
  currency = req.currency;
  settle_currency = req.settle_currency;
  platform_fee = qr.platform_fee;
  rail_fee = qr.rail_fee;
  net = qr.net;
  fx = req.fx;
  breakdown = qr;
}

-- The primary key refuses a second row.
unfoldable pub insert_quote : String → QuoteRow → Method ⊤
insert_quote quote_id row = do
  raise_if (← query (λ d. is_some (lookup quote_id d.quotes))) integrity_error
  write (λ d. record d { quotes = d.quotes ++ (quote_id, row) ∷ [] })

-- the round of a tier and a rail, with the fees of both
unfoldable pub issue : QuoteRequest → TierFee → (tname rname : String) → Method QuoteIssued
unfolding rail_fee insert_quote
issue req tier tname rname = do
  rail ← rail_fee rname tname
  qr ← lift (compute_quote req.gross req.currency req.settle_currency tier rail req.fx)
  let row = quote_row req tname rname qr
  quote_id ← query (λ d. req.fresh (length d.quotes))
  insert_quote quote_id row
  add_event (quote_issued quote_id row)
  publish (event (quote_issued quote_id row))
  pure (record { quote_id = quote_id; row = row })

unfoldable pub issue_rails :
    QuoteRequest → TierFee → String → List String → Method (List QuoteIssued)
issue_rails req tier tname [] = pure []
issue_rails req tier tname (rname ∷ rails) = do
  first ← issue req tier tname rname
  rest ← issue_rails req tier tname rails
  pure (first ∷ rest)

unfoldable pub issue_tiers : QuoteRequest → List String → List String → Method (List QuoteIssued)
unfolding tier_fee
issue_tiers req rails [] = pure []
issue_tiers req rails (tname ∷ names) = do
  tier ← tier_fee tname
  first ← issue_rails req tier tname rails
  rest ← issue_tiers req rails names
  pure (first ++ rest)

-- `None` for equal currencies, the locked rate otherwise
unfoldable pub lock_rate :
    Sources → (now : ℕ) (currency settle_currency : String) → Method (Option Rate)
unfolding rate_for
lock_rate sources now currency settle_currency =
    if currency == settle_currency
    then pure none
    else do rate ← rate_for sources now currency settle_currency; pure (some rate)

-- `tiers if tiers else [the merchant's tier]`
unfoldable pub tier_names : String → Option (List String) → Method (List String)
unfolding resolve_merchant_tier
tier_names merchant_id none = do name ← resolve_merchant_tier merchant_id; pure (name ∷ [])
tier_names merchant_id (some []) = do name ← resolve_merchant_tier merchant_id; pure (name ∷ [])
tier_names merchant_id (some (name ∷ names)) = pure (name ∷ names)

unfoldable pub quote :
    (sources : Sources) (now : ℕ) (fresh : ℕ → String) (merchant_id : String) (gross : ℕ)
    (currency settle_currency : String) (rails : List String) (tiers : Option (List String))
    → Method (List QuoteIssued)
quote sources now fresh merchant_id gross currency settle_currency rails tiers = do
  fx ← lock_rate sources now (upper currency) (upper settle_currency)
  names ← tier_names merchant_id tiers
  issued ←
      issue_tiers
        (record {
          merchant_id = merchant_id;
          gross = gross;
          currency = upper currency;
          settle_currency = upper settle_currency;
          fx = fx;
          fresh = fresh;
        })
        rails names
  commit
  pure issued

-- the tier and the organization of a merchant, from the bus: identifiers that are no UUIDs are `none`
unfoldable pub upsert_merchant_pricing :
    (now : ℕ) (merchant_id org_id : Option String) (tier source : String) → Method ⊤
upsert_merchant_pricing now none org_id tier source = pure tt
upsert_merchant_pricing now (some merchant_id) org_id tier source = do
  known ← query (get_tier tier)
  old ← query (get_merchant_pricing merchant_id)
  write (λ d. record d {
    merchant_pricing =
        insert merchant_id
          (record {
            org_id = elim org_id [
              | some given ↦ some given
              | none ↦ elim old [ none ↦ none | some row ↦ row.org_id ]
            ];
            tier = if is_some known then tier else default_tier;
            effective_at = now;
            source = source;
          })
          d.merchant_pricing;
  })
  commit

pub record RailFeeView : Type 0 where
  pub rail : String
  pub pct_bps : ℕ
  pub fixed : ℕ
  pub fixed_currency : String

pub record MerchantPricingView : Type 0 where
  pub merchant_id : String
  pub org_id : Option String
  pub tier : String
  pub display_name : String
  pub platform_pct_bps : ℕ
  pub platform_fixed : ℕ
  pub fixed_currency : String
  pub rail_fees : List RailFeeView
  pub effective_at : ℕ

abbrev pub view_of : RailFeeRow → RailFeeView
view_of row = record {
  rail = row.rail;
  pct_bps = row.pct_bps;
  fixed = row.fixed;
  fixed_currency = row.fixed_currency;
}

-- the rows of the rails that have one
unfoldable pub rail_views : String → PricingDb → List String → List RailFeeView
rail_views tier d [] = []
rail_views tier d (rail ∷ rails) = elim (get_rail_fee rail tier d) [
  | none ↦ rail_views tier d rails
  | some row ↦ view_of row ∷ rail_views tier d rails
]

-- what is shown for a tier that has no row
abbrev pub shown_tier : (default_currency tier : String) → Option TierRow → TierRow
shown_tier default_currency tier (some row) = row
shown_tier default_currency tier none = record {
  display_name = tier;
  platform_pct_bps = 0;
  platform_fixed = 0;
  fixed_currency = default_currency;
  active = false;
}

unfoldable pub get_merchant_pricing_view :
    (default_currency merchant_id : String) → Method MerchantPricingView
unfolding rail_views
get_merchant_pricing_view default_currency merchant_id = do
  found ← query (get_merchant_pricing merchant_id)
  mp ← or_raise found merchant_pricing_not_found
  tier_row ← query (get_tier mp.tier)
  fees ← query (λ d. rail_views mp.tier d all_rails)
  let shown = shown_tier default_currency mp.tier tier_row
  pure (record {
    merchant_id = merchant_id;
    org_id = mp.org_id;
    tier = mp.tier;
    display_name = shown.display_name;
    platform_pct_bps = shown.platform_pct_bps;
    platform_fixed = shown.platform_fixed;
    fixed_currency = shown.fixed_currency;
    rail_fees = fees;
    effective_at = mp.effective_at;
  })
