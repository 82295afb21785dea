-- ===== src/Pricing/Quote.antt =====
-- linkmint-backend/fee-pricing-service/app/domain/models.py: the arithmetic of a quote. Amounts are
-- minor units and percentages are basis points, neither negative (the API and the tables see to it).
-- A rate is the decimal coefficient / 10 ^ decimals. Products of more than 28 digits, which Python's
-- decimal context would round, are outside the model. The breakdown repeats the other fields.
use paylink.Prelude.{
  ℕ, ◌+◌, ◌-◌, ◌*◌, ◌^◌, String, Bool, ◌&&◌, ◌||◌, Option, none, some, Result, ok, err, ltb,
  if◌then◌else◌, ◌==◌, string_eq, nat_eq, round0, upper,
}

-- `BPS_DENOM`
abbrev pub bps_denom : ℕ
bps_denom = 10000

pub record TierFee : Type 0 where
  pub tier : String
  pub platform_pct_bps : ℕ
  pub platform_fixed : ℕ
  pub fixed_currency : String

pub record RailFee : Type 0 where
  pub rail : String
  pub pct_bps : ℕ
  pub fixed : ℕ
  pub fixed_currency : String

pub record Rate : Type 0 where
  pub base : String
  pub quote : String
  pub coefficient : ℕ
  pub decimals : ℕ
  pub source : String
  pub fetched_at : ℕ

pub record QuoteResult : Type 0 where
  pub gross : ℕ
  pub currency : String
  pub gross_settled : ℕ
  pub settle_currency : String
  pub platform_pct_amount : ℕ
  pub platform_fixed_amount : ℕ
  pub platform_fee : ℕ
  pub rail_pct_amount : ℕ
  pub rail_fixed_amount : ℕ
  pub rail_fee : ℕ
  pub net : ℕ
  pub fx : Option Rate

pub data PricingError : Type 0 where
  fx_unavailable fee_exceeds_gross : PricingError
  tier_not_found rail_not_found merchant_pricing_not_found invalid_period integrity_error :
      PricingError

-- `_round0(Decimal(amount) * fx.rate)`
unfoldable pub exchange : ℕ → Rate → ℕ
exchange amount fx = round0 (amount * fx.coefficient) (10 ^ fx.decimals)

-- a rate from one currency to another
abbrev pub is_rate : String → String → Rate → Bool
is_rate from to fx = (fx.base == from) && (fx.quote == to)

-- the conversion by a locked rate, if it is the right one
unfoldable pub convert_by : ℕ → String → String → Option Rate → Result PricingError ℕ
convert_by amount from to none = err fx_unavailable
convert_by amount from to (some fx) =
    if is_rate from to fx then ok (exchange amount fx) else err fx_unavailable

-- `_convert`
unfoldable pub convert : ℕ → String → String → Option Rate → Result PricingError ℕ
unfolding convert_by
convert amount from to fx =
    if (amount == 0) || (from == to) then ok amount else convert_by amount from to fx

unfoldable pub percentage : ℕ → ℕ → ℕ
percentage amount bps = round0 (amount * bps) bps_denom

-- the first step: what the payment is in the settlement currency, and the rate that was used
unfoldable pub settle : ℕ → String → String → Option Rate → Result PricingError (ℕ × Option Rate)
unfolding convert_by
settle gross currency settle_currency fx =
    if currency == settle_currency
    then ok (gross, none)
    else elim (convert_by gross currency settle_currency fx) [
      | err e ↦ err e
      | ok settled ↦ ok (settled, fx)
    ]

infixl 5 ◌then_do◌
abbrev ◌then_do◌ {ℓ} :
    {A B : Type ℓ} → Result PricingError A → (A → Result PricingError B) → Result PricingError B
r then_do f = elim r [ err e ↦ err e | ok a ↦ f a ]

-- the last step: the net, unless the fees exceed the payment
unfoldable pub finish :
    (gross : ℕ) (currency settle_currency : String) (settled : ℕ) (fx : Option Rate)
    (platform_pct platform_fixed rail_pct rail_fixed : ℕ)
    → Result PricingError QuoteResult
finish gross currency settle_currency settled fx platform_pct platform_fixed rail_pct rail_fixed =
    let platform_fee = platform_pct + platform_fixed in
    let rail_fee = rail_pct + rail_fixed in
    if ltb settled (platform_fee + rail_fee)
    then err fee_exceeds_gross
    else ok (record {
      gross = gross;
      currency = currency;
      gross_settled = settled;
      settle_currency = settle_currency;
      platform_pct_amount = platform_pct;
      platform_fixed_amount = platform_fixed;
      platform_fee = platform_fee;
      rail_pct_amount = rail_pct;
      rail_fixed_amount = rail_fixed;
      rail_fee = rail_fee;
      net = settled - platform_fee - rail_fee;
      fx = fx;
    })

-- the steps on currencies in capitals
unfoldable pub quote_in :
    (gross : ℕ) (currency settle_currency : String) (tier : TierFee) (rail : RailFee)
    (fx : Option Rate)
    → Result PricingError QuoteResult
unfolding settle convert percentage finish
quote_in gross currency settle_currency tier rail fx =
    settle gross currency settle_currency fx then_do λ (settled, fx_used).
    convert tier.platform_fixed (upper tier.fixed_currency) settle_currency fx_used
    then_do λ platform_fixed.
        convert rail.fixed (upper rail.fixed_currency) settle_currency fx_used then_do λ rail_fixed.
        finish gross currency settle_currency settled fx_used
          (percentage settled tier.platform_pct_bps) platform_fixed
          (percentage settled rail.pct_bps) rail_fixed

unfoldable pub compute_quote :
    (gross_minor : ℕ) (currency settle_currency : String) (tier : TierFee) (rail : RailFee)
    (fx : Option Rate)
    → Result PricingError QuoteResult
unfolding quote_in
compute_quote gross_minor currency settle_currency tier rail fx =
    quote_in gross_minor (upper currency) (upper settle_currency) tier rail fx
