-- ===== src/Pricing/Requests.antt =====
-- A whole request for quotes to linkmint-backend/fee-pricing-service.
use paylink.Prelude.{
  ◌≡◌, refl, ap, sym, ◌∙◌, subst, ℕ, String, Option, none, some, List, [], ◌∷◌, ◌++◌, map, All,
  lookup, string_eq, ◌==◌, upper, arith, Bool-cases, Option-cases, inl, inr, Result, Result-cases,
  ok, err, request,
}
use paylink.Pricing.Quote.{Rate, PricingError, fx_unavailable}
use paylink.Pricing.Rates.{State, PricingDb, Sources, fetched, store_rate, rate_in, rate_for}
use paylink.Pricing.Service.{
  QuoteIssued, QuoteRequest, issue_tiers, lock_rate, tier_names, resolve_merchant_tier, quote,
}
use paylink.Pricing.Issuing.{as_entry, IsFor, Adds, SameFees, offer, offers, issue_tiers-Adds}

-- A run leaves the quotes as they are, stored or not, and the tables that quotes are priced by.
abbrev Leaves {ℓ} : {A : Type ℓ} → State → Result PricingError A × State → Type 0
Leaves s (r, t) =
    (t.stored.quotes ≡ s.stored.quotes)
    × (t.working.quotes ≡ s.working.quotes)
    × SameFees s.working t.working
    × (t.working.merchant_pricing ≡ s.working.merchant_pricing)

module _ (sources : Sources) where
  rate_in-Leaves :
      (base quote : String) (s : State)
      → s.working.quotes ≡ s.stored.quotes
      → Leaves s (rate_in sources base quote s)
  unfolding rate_in store_rate
  rate_in-Leaves base quote s same = elim (Option-cases (sources.redis base quote)) [
    | inr (rate, a) ↦
        let run : rate_in sources base quote s ≡ (ok rate, s) = ground (arith, a) in
        subst (Leaves s) (sym run) (refl, refl, (refl, refl), refl)
    | inl a ↦ elim (Option-cases (fetched sources base quote)) [
      | inl b ↦
          let run : rate_in sources base quote s ≡ (err fx_unavailable, s) = ground (arith, a, b) in
          subst (Leaves s) (sym run) (refl, refl, (refl, refl), refl)
      | inr (rate, b) ↦
          let run : rate_in sources base quote s ≡ store_rate base quote rate s =
            ground (arith, a, b) in
          subst (Leaves s) (sym run) (same, refl, (refl, refl), refl)
    ]
  ]

  lock_rate-Leaves :
      (now : ℕ) (from to : String) (s : State)
      → s.working.quotes ≡ s.stored.quotes
      → Leaves s (lock_rate sources now from to s)
  unfolding lock_rate rate_for
  lock_rate-Leaves now from to s same =
      let kept = rate_in-Leaves (upper from) (upper to) s same in
      let t = (rate_in sources (upper from) (upper to) s).1 in
      elim (Bool-cases (from == to)) [
        | inl a ↦
            let run : lock_rate sources now from to s ≡ (ok none, s) = ground (arith, a) in
            subst (Leaves s) (sym run) (refl, refl, (refl, refl), refl)
        | inr a ↦ elim (Bool-cases (upper from == upper to)) [
          | inl b ↦
              let rate : Rate = record {
                base = upper from;
                quote = upper to;
                coefficient = 1;
                decimals = 0;
                source = "identity";
                fetched_at = now;
              } in
              let run : lock_rate sources now from to s ≡ (ok (some rate), s) =
                ground (arith, a, b) in
              subst (Leaves s) (sym run) (refl, refl, (refl, refl), refl)
          | inr b ↦ elim (Result-cases (rate_in sources (upper from) (upper to) s).0) [
            | inl (e, c) ↦
                let run : lock_rate sources now from to s ≡ (err e, t) = ground (arith, a, b, c) in
                subst (Leaves s) (sym run) kept
            | inr (rate, c) ↦
                let run : lock_rate sources now from to s ≡ (ok (some rate), t) =
                  ground (arith, a, b, c) in
                subst (Leaves s) (sym run) kept
          ]
        ]
      ]

-- the tier that a merchant has, or else "standard"
abbrev pub own_tier : String → PricingDb → String
own_tier merchant_id d = elim (lookup merchant_id d.merchant_pricing) [
  | none ↦ "standard"
  | some row ↦ row.tier
]

-- the tiers that quotes are for: those asked for, or else the merchant's own
abbrev pub tiers_for : String → Option (List String) → PricingDb → List String
tiers_for merchant_id none d = own_tier merchant_id d ∷ []
tiers_for merchant_id (some []) d = own_tier merchant_id d ∷ []
tiers_for merchant_id (some (name ∷ names)) d = name ∷ names

own_tier-same :
    (merchant_id : String) (d w : PricingDb)
    → w.merchant_pricing ≡ d.merchant_pricing
    → own_tier merchant_id w ≡ own_tier merchant_id d
own_tier-same merchant_id d w same =
    ap (λ rows. elim (lookup merchant_id rows) [ none ↦ "standard" | some row ↦ row.tier ]) same

tiers_for-same :
    (merchant_id : String) (tiers : Option (List String)) (d w : PricingDb)
    → w.merchant_pricing ≡ d.merchant_pricing
    → tiers_for merchant_id tiers w ≡ tiers_for merchant_id tiers d
tiers_for-same merchant_id none d w same =
    ap (λ name. name ∷ []) (own_tier-same merchant_id d w same)
tiers_for-same merchant_id (some []) d w same =
    ap (λ name. name ∷ []) (own_tier-same merchant_id d w same)
tiers_for-same merchant_id (some (name ∷ names)) d w same = refl

tier_names_lem :
    (merchant_id : String) (tiers : Option (List String)) (s : State)
    → tier_names merchant_id tiers s ≡ (ok (tiers_for merchant_id tiers s.working), s)
unfolding tier_names resolve_merchant_tier
tier_names_lem merchant_id none s =
    elim (Option-cases (lookup merchant_id s.working.merchant_pricing)) [
      | inl a ↦ ground (arith, a)
      | inr (row, a) ↦ ground (arith, a)
    ]
tier_names_lem merchant_id (some []) s =
    elim (Option-cases (lookup merchant_id s.working.merchant_pricing)) [
      | inl a ↦ ground (arith, a)
      | inr (row, a) ↦ ground (arith, a)
    ]
tier_names_lem merchant_id (some (name ∷ names)) s = refl

-- what a request asks, and the rate that it locked
abbrev pub asked :
    (merchant_id : String) (gross : ℕ) (currency settle_currency : String) (fresh : ℕ → String)
    → Option Rate
    → QuoteRequest
asked merchant_id gross currency settle_currency fresh fx = record {
  merchant_id = merchant_id;
  gross = gross;
  currency = upper currency;
  settle_currency = upper settle_currency;
  fx = fx;
  fresh = fresh;
}

-- All quotes of an answer are stored, one for each of the offers, at one rate, or no quote is.
abbrev pub StoresAll :
    (Option Rate → QuoteRequest)
    → List (String × String)
    → State
    → Result PricingError (List QuoteIssued) × State
    → Type 0
StoresAll req wanted s (r, t) = elim r [
  | err e ↦ t.stored.quotes ≡ s.stored.quotes
  | ok issued ↦
      (t.stored.quotes ≡ s.stored.quotes ++ map as_entry issued)
      × (map offer issued ≡ wanted)
      × ((fx : Option Rate) × All (IsFor s.stored (req fx)) issued)
]

-- A request for quotes that fails stores none. One that is answered stores just the quotes of the
-- answer, in their order: one for each tier asked for (the merchant's own if none is, or else
-- "standard") with each rail, tier by tier. Each is for the merchant, the payment and the
-- currencies of the request, all are at one rate, and the amounts of each are those that
-- `compute_quote` yields for the stored fees of its tier, which is active, and of its rail; its fees
-- and net make up what the payment is settled at.
pub quote-StoresAll :
    (sources : Sources) (now : ℕ) (fresh : ℕ → String) (merchant_id : String) (gross : ℕ)
    (currency settle_currency : String) (rails : List String) (tiers : Option (List String))
    (s : State)
    → StoresAll
        (asked merchant_id gross currency settle_currency fresh)
        (offers (tiers_for merchant_id tiers s.stored) rails)
        s
        (request (quote sources now fresh merchant_id gross currency settle_currency rails tiers) s)
unfolding quote
quote-StoresAll sources now fresh merchant_id gross currency settle_currency rails tiers s =
    let req = asked merchant_id gross currency settle_currency fresh in
    let s0 : State = record s { working = s.stored } in
    let run = quote sources now fresh merchant_id gross currency settle_currency rails tiers in
    let P = StoresAll req (offers (tiers_for merchant_id tiers s.stored) rails) s in
    let (kept, working, fees, merchants) =
      lock_rate-Leaves sources now (upper currency) (upper settle_currency) s0 refl in
    let t = (lock_rate sources now (upper currency) (upper settle_currency) s0).1 in
    elim (Result-cases (lock_rate sources now (upper currency) (upper settle_currency) s0).0) [
      | inl (e, a) ↦
          let ran : request run s ≡ (err e, record t { working = t.stored }) = ground (arith, a) in
          subst P (sym ran) kept
      | inr (fx, a) ↦
          let names = tiers_for merchant_id tiers t.working in
          let b = tier_names_lem merchant_id tiers t in
          let added = issue_tiers-Adds s.stored (req fx) rails names t fees in
          let u = (issue_tiers (req fx) rails names t).1 in
          elim (Result-cases (issue_tiers (req fx) rails names t).0) [
            | inl (e, c) ↦
                let ran : request run s ≡ (err e, record u { working = u.stored }) =
                  ground (arith, a, b, c) in
                subst P (sym ran) (ap (λ d. d.quotes) added.0 ∙ kept)
            | inr (issued, c) ↦
                let ran : request run s ≡ (ok issued, record u { stored = u.working }) =
                  ground (arith, a, b, c) in
                let (_, (quotes, _, offered, sounds)) : Adds s.stored (req fx) (offers names rails)
                    t (ok issued, u) =
                  subst (λ r. Adds s.stored (req fx) (offers names rails) t (r, u)) c added in
                subst P (sym ran) (
                  quotes ∙ ap (λ rows. rows ++ map as_entry issued) working,
                  offered
                      ∙ ap (λ tiers. offers tiers rails)
                          (tiers_for-same merchant_id tiers s.stored t.working merchants),
                  (fx, sounds),
                )
          ]
    ]
