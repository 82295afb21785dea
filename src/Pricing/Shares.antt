-- ===== src/Pricing/Shares.antt =====
-- How a quote of linkmint-backend/fee-pricing-service/app/domain/models.py divides a payment.
use paylink.Prelude.{
  ℕ, ◌+◌, ◌*◌, ◌≤◌, String, ◌≡◌, ◌⊎◌, inl, inr, refl, Option, none, some, arith, ltb, Bool-cases,
  ok, Result-cases, ◌==◌, string_eq, eq_iff_at, round0_bounds, upper,
}
use paylink.Pricing.Quote.{
  TierFee, RailFee, Rate, QuoteResult, exchange, is_rate, convert_by, convert, percentage, settle,
  finish, quote_in, compute_quote,
}

-- off by half a unit of the last place at most
abbrev pub IsRounded : ℕ → ℕ → ℕ → Type 0
IsRounded pct amount bps =
    (2 * (10000 * pct) ≤ 2 * (amount * bps) + 10000)
    × (2 * (amount * bps) ≤ 2 * (10000 * pct) + 10000)

-- how a payment came into the settlement currency: it was in it, or by a rate between the two
abbrev pub IsSettled : ℕ → String → String → Option Rate → QuoteResult → Type 0
IsSettled gross from to fx q =
    ((from ≡ to) × (q.gross_settled ≡ gross) × (q.fx ≡ none))
    ⊎ ((rate : Rate) × (fx ≡ some rate)
        × (rate.base ≡ from)
        × (rate.quote ≡ to)
        × (q.fx ≡ some rate)
        × (q.gross_settled ≡ exchange gross rate))

-- What a quote that is issued holds to.
pub record IsFair (gross : ℕ) (currency settle_currency : String) (tier : TierFee) (rail : RailFee)
    (fx : Option Rate) (q : QuoteResult) : Type 0 where
  pub settled : IsSettled gross (upper currency) (upper settle_currency) fx q
  pub conserved : q.gross_settled ≡ q.platform_fee + q.rail_fee + q.net
  pub platform_parts : q.platform_fee ≡ q.platform_pct_amount + q.platform_fixed_amount
  pub rail_parts : q.rail_fee ≡ q.rail_pct_amount + q.rail_fixed_amount
  pub platform_rounded : IsRounded q.platform_pct_amount q.gross_settled tier.platform_pct_bps
  pub rail_rounded : IsRounded q.rail_pct_amount q.gross_settled rail.pct_bps

percentage-IsRounded : (amount bps : ℕ) → IsRounded (percentage amount bps) amount bps
unfolding percentage
percentage-IsRounded amount bps =
    let bounds = round0_bounds (amount * bps) in (omega (arith, bounds.0), omega (arith, bounds.1))

settle_lem :
    (gross : ℕ) (from to : String) (fx : Option Rate) (settled : ℕ) (used : Option Rate)
    → settle gross from to fx ≡ ok (settled, used)
    → ((from ≡ to) × (settled ≡ gross) × (used ≡ none))
      ⊎ ((rate : Rate) × (fx ≡ some rate)
          × (rate.base ≡ from)
          × (rate.quote ≡ to)
          × (used ≡ some rate)
          × (settled ≡ exchange gross rate))
unfolding settle convert_by
settle_lem gross from to none settled used e = ground (arith, e, eq_iff_at from to)
settle_lem gross from to (some rate) settled used e = elim (Bool-cases (from == to)) [
  | inl b ↦ inl (ground (arith, e, b, eq_iff_at from to))
  | inr b ↦ elim (Bool-cases (is_rate from to rate)) [
    | inl c ↦ inr (
      rate,
      refl,
      ground (arith, c, eq_iff_at rate.base from),
      ground (arith, c, eq_iff_at rate.base from, eq_iff_at rate.quote to),
      ground (arith, e, b, c),
      ground (arith, e, b, c),
    )
    | inr c ↦ ground (arith, e, b, c)
  ]
]

finish_lem :
    (gross : ℕ) (from to : String) (settled : ℕ) (used : Option Rate)
    (platform_pct platform_fixed rail_pct rail_fixed : ℕ) (q : QuoteResult)
    → finish gross from to settled used platform_pct platform_fixed rail_pct rail_fixed ≡ ok q
    → (q.gross_settled ≡ settled)
      × (q.fx ≡ used)
      × (q.platform_pct_amount ≡ platform_pct)
      × (q.rail_pct_amount ≡ rail_pct)
      × (q.gross_settled ≡ q.platform_fee + q.rail_fee + q.net)
      × (q.platform_fee ≡ q.platform_pct_amount + q.platform_fixed_amount)
      × (q.rail_fee ≡ q.rail_pct_amount + q.rail_fixed_amount)
unfolding finish
finish_lem gross from to settled used pp pf rp rf q e =
    elim (Bool-cases (ltb settled (pp + pf + (rp + rf)))) [
      | inl b ↦ ground (arith, e, b)
      | inr b ↦ ground (arith, e, b)
    ]

-- A quote that is issued: the payment is settled as it stands or by a rate between its two
-- currencies, fees and net make up what is settled, each fee is its percentage and its fixed part,
-- and a percentage is off by half a minor unit at most.
pub compute_quote_lem :
    (gross : ℕ) (currency settle_currency : String) (tier : TierFee) (rail : RailFee)
    (fx : Option Rate) (q : QuoteResult)
    → compute_quote gross currency settle_currency tier rail fx ≡ ok q
    → IsFair gross currency settle_currency tier rail fx q
unfolding compute_quote quote_in
compute_quote_lem gross currency settle_currency tier rail fx q issued =
    let from = upper currency in
    let to = upper settle_currency in
    elim (Result-cases (settle gross from to fx)) [
      | inl (e, a) ↦ ground (arith, a, issued)
      | inr ((settled, used), a) ↦
          elim (Result-cases (convert tier.platform_fixed (upper tier.fixed_currency) to used)) [
            | inl (e, b) ↦ ground (arith, a, b, issued)
            | inr (platform_fixed, b) ↦
                elim (Result-cases (convert rail.fixed (upper rail.fixed_currency) to used)) [
                  | inl (e, c) ↦ ground (arith, a, b, c, issued)
                  | inr (rail_fixed, c) ↦
                      let last : finish gross from to settled used
                            (percentage settled tier.platform_pct_bps) platform_fixed
                            (percentage settled rail.pct_bps) rail_fixed
                          ≡ ok q =
                        ground (arith, a, b, c, issued) in
                      let f =
                        finish_lem gross from to settled used
                          (percentage settled tier.platform_pct_bps) platform_fixed
                          (percentage settled rail.pct_bps) rail_fixed q last in
                      record {
                        settled = ground (arith, settle_lem gross from to fx settled used a, f);
                        conserved = f.4;
                        platform_parts = f.5;
                        rail_parts = f.6;
                        platform_rounded =
                            rw (f.0, f.2) (percentage-IsRounded settled tier.platform_pct_bps);
                        rail_rounded = rw (f.0, f.3) (percentage-IsRounded settled rail.pct_bps);
                      }
                ]
          ]
    ]

module _ (amount : ℕ) (from to : String) (fx : Option Rate) (same : from ≡ to) where
  settle_same : settle amount from to fx ≡ ok (amount, none)
  unfolding settle
  settle_same = ground (arith, same, eq_iff_at from to)

  convert_same : convert amount from to fx ≡ ok amount
  unfolding convert
  convert_same = ground (arith, same, eq_iff_at from to)

-- When the payment, the settlement and both fixed fees are in one currency, and the fees do not exceed
-- the payment, the quote is issued, with or without a rate.
pub compute_quote_issued :
    (gross : ℕ) (currency settle_currency : String) (tier : TierFee) (rail : RailFee)
    (fx : Option Rate)
    → upper currency ≡ upper settle_currency
    → upper tier.fixed_currency ≡ upper settle_currency
    → upper rail.fixed_currency ≡ upper settle_currency
    → percentage gross tier.platform_pct_bps
        + tier.platform_fixed
        + (percentage gross rail.pct_bps + rail.fixed)
      ≤ gross
    → (q : QuoteResult) × (compute_quote gross currency settle_currency tier rail fx ≡ ok q)
unfolding compute_quote quote_in finish
compute_quote_issued gross currency settle_currency tier rail fx p q r enough =
    elim (Result-cases (compute_quote gross currency settle_currency tier rail fx)) [
      | inr issued ↦ issued
      | inl (e, c) ↦ ground (
        arith,
        c,
        settle_same gross (upper currency) (upper settle_currency) fx p,
        convert_same tier.platform_fixed (upper tier.fixed_currency) (upper settle_currency) none q,
        convert_same rail.fixed (upper rail.fixed_currency) (upper settle_currency) none r,
        enough,
      )
    ]
