-- ===== src/Pricing/Issuing.antt =====
-- What a request for quotes to linkmint-backend/fee-pricing-service stores.
use paylink.Prelude.{
  ◌≡◌, refl, ap, sym, ◌∙◌, subst, ◌+◌, String, some, none, is_some, List, [], ◌∷◌, ◌++◌, length,
  map, All, All-append, lookup, string_eq, arith, Bool-cases, Option-cases, ◌⊎◌, inl, inr, Result,
  Result-cases, ok, err, append-nil, append_assoc,
}
use mathlib.Core.List.{map-append}
use paylink.Pricing.Quote.{
  TierFee, RailFee, PricingError, tier_not_found, rail_not_found, integrity_error, QuoteResult,
  compute_quote,
}
use paylink.Pricing.Shares.{compute_quote_lem}
use paylink.Pricing.Rates.{
  TierRow, RailFeeRow, QuoteRow, PricingDb, quote_issued, event, State, rail_row, get_rail_fee,
}
use paylink.Pricing.Service.{
  QuoteIssued, QuoteRequest, quote_row, tier_fee, active_tier, rail_fee, insert_quote, issue,
  issue_rails, issue_tiers,
}

abbrev pub as_entry : QuoteIssued → String × QuoteRow
as_entry i = (i.quote_id, i.row)

-- what a tier charges
abbrev tier_charge : String → TierRow → TierFee
tier_charge name row = record {
  tier = name;
  platform_pct_bps = row.platform_pct_bps;
  platform_fixed = row.platform_fixed;
  fixed_currency = row.fixed_currency;
}

-- what a rail charges
abbrev rail_charge : RailFeeRow → RailFee
rail_charge row = record {
  rail = row.rail;
  pct_bps = row.pct_bps;
  fixed = row.fixed;
  fixed_currency = row.fixed_currency;
}

-- The amounts are those that the tables ask of a tier, which is active, and of a rail.
pub record IsPriced (d : PricingDb) (req : QuoteRequest) (tier rail : String) (q : QuoteResult)
    : Type 0 where
  pub tier_row : TierRow
  pub rail_row : RailFeeRow
  pub of_tier : active_tier (lookup tier d.tiers) ≡ some tier_row
  pub of_rail : get_rail_fee rail tier d ≡ some rail_row
  pub computed :
      compute_quote req.gross req.currency req.settle_currency
        (tier_charge tier tier_row)
        (rail_charge rail_row)
        req.fx
      ≡ ok q

-- A quote for what was asked, at the locked rate, with the fees of its tier and rail, which make up
-- with the net what is settled.
pub record IsFor (d : PricingDb) (req : QuoteRequest) (i : QuoteIssued) : Type 0 where
  pub merchant : i.row.merchant_id ≡ req.merchant_id
  pub gross : i.row.gross ≡ req.gross
  pub currency : i.row.currency ≡ req.currency
  pub settle_currency : i.row.settle_currency ≡ req.settle_currency
  pub locked : i.row.fx ≡ req.fx
  pub priced : IsPriced d req i.row.tier i.row.rail i.row.breakdown
  pub platform_fee : i.row.platform_fee ≡ i.row.breakdown.platform_fee
  pub rail_fee : i.row.rail_fee ≡ i.row.breakdown.rail_fee
  pub net : i.row.net ≡ i.row.breakdown.net
  pub conserved : i.row.breakdown.gross_settled ≡ i.row.platform_fee + i.row.rail_fee + i.row.net

-- the tier and the rail of a quote
abbrev pub offer : QuoteIssued → String × String
offer i = (i.row.tier, i.row.rail)

-- every tier with every rail, tier by tier
abbrev pub offers : (tiers rails : List String) → List (String × String)
offers [] rails = []
offers (tier ∷ tiers) rails = map (λ rail. (tier, rail)) rails ++ offers tiers rails

abbrev pub SameFees : PricingDb → PricingDb → Type 0
SameFees d w = (w.tiers ≡ d.tiers) × (w.rail_fees ≡ d.rail_fees)

-- What a run adds to the quotes of its session: those that it answers with, if it has an answer,
-- one for each of the offers.
abbrev pub Adds :
    PricingDb
    → QuoteRequest
    → List (String × String)
    → State
    → Result PricingError (List QuoteIssued) × State
    → Type 0
Adds d req wanted s (r, t) = (t.stored ≡ s.stored) × elim r [
  | err e ↦ Unit
  | ok issued ↦
      (t.working.quotes ≡ s.working.quotes ++ map as_entry issued)
      × SameFees d t.working
      × (map offer issued ≡ wanted)
      × All (IsFor d req) issued
]

get_rail_fee-same :
    (rail tier : String) (d w : PricingDb)
    → w.rail_fees ≡ d.rail_fees
    → get_rail_fee rail tier w ≡ get_rail_fee rail tier d
unfolding get_rail_fee
get_rail_fee-same rail tier d w same =
    ap
      (λ rows. elim (rail_row rail (some tier) rows) [
        | some row ↦ some row
        | none ↦ rail_row rail none rows
      ])
      same

abbrev issued_state : String → QuoteRow → State → State
issued_state id row s = record s {
  working = record s.working {
    quotes = s.working.quotes ++ (id, row) ∷ [];
    events = s.working.events ++ quote_issued id row ∷ [];
  };
  published = s.published ++ event (quote_issued id row) ∷ [];
}

module _ (d : PricingDb) (req : QuoteRequest) (s t u : State) where
  -- A quote, and then those of the rest of the run.
  Adds-cons :
      (o : String × String) (wanted : List (String × String)) (i : QuoteIssued)
      (is : List QuoteIssued)
      → t.stored ≡ s.stored
      → t.working.quotes ≡ s.working.quotes ++ as_entry i ∷ []
      → offer i ≡ o
      → IsFor d req i
      → Adds d req wanted t (ok is, u)
      → Adds d req (o ∷ wanted) s (ok (i ∷ is), u)
  Adds-cons o wanted i is kept quotes offered sound (stored, (added, fees, others, sounds)) = (
    stored ∙ kept,
    (
      added
          ∙ ap (λ rows. rows ++ map as_entry is) quotes
          ∙ append_assoc s.working.quotes (as_entry i ∷ []) (map as_entry is),
      fees,
      ap (λ first. first ∷ map offer is) offered ∙ ap (λ os. o ∷ os) others,
      (sound, sounds),
    ),
  )

  -- The quotes of a tier, and then those of the others.
  Adds-append :
      (first wanted : List (String × String)) (is js : List QuoteIssued)
      → Adds d req first s (ok is, t)
      → Adds d req wanted t (ok js, u)
      → Adds d req (first ++ wanted) s (ok (is ++ js), u)
  Adds-append first wanted is js (stored, (added, _, offered, sounds))
        (stored', (added', fees', offered', sounds')) =
      (
        stored' ∙ stored,
        (
          added'
              ∙ ap (λ rows. rows ++ map as_entry js) added
              ∙ append_assoc s.working.quotes (map as_entry is) (map as_entry js)
              ∙ ap (λ rows. s.working.quotes ++ rows) (sym (map-append as_entry is js)),
          fees',
          map-append offer is js
              ∙ ap (λ os. os ++ map offer js) offered
              ∙ ap (λ os. first ++ os) offered',
          All-append (IsFor d req) is js sounds sounds',
        ),
      )

module _ (d : PricingDb) (req : QuoteRequest) (tname : String) (tier_row : TierRow)
    (of_tier : active_tier (lookup tname d.tiers) ≡ some tier_row) where
  issue-cases :
      (rname : String) (s : State)
      → SameFees d s.working
      → ((e : PricingError) × (t : State) × (issue req (tier_charge tname tier_row) tname rname s
            ≡ (err e, t))
          × (t.stored ≡ s.stored))
        ⊎ ((i : QuoteIssued) × (t : State) × (issue req (tier_charge tname tier_row) tname rname s
              ≡ (ok i, t))
            × (t.stored ≡ s.stored)
            × (t.working.quotes ≡ s.working.quotes ++ as_entry i ∷ [])
            × SameFees d t.working
            × (offer i ≡ (tname, rname))
            × IsFor d req i)
  unfolding issue rail_fee insert_quote
  issue-cases rname s same = elim (Option-cases (get_rail_fee rname tname s.working)) [
    | inl a ↦ inl (rail_not_found, s, (ground (arith, a)), refl)
    | inr (row, a) ↦
        let tier = tier_charge tname tier_row in
        let rail = rail_charge row in
        elim (Result-cases
          (compute_quote req.gross req.currency req.settle_currency tier rail req.fx)) [
            | inl (e, b) ↦ inl (e, s, (ground (arith, a, b)), refl)
            | inr (qr, b) ↦
                elim (Bool-cases
                  (is_some (lookup (req.fresh (length s.working.quotes)) s.working.quotes))) [
                    | inl c ↦ inl (integrity_error, s, (ground (arith, a, b, c)), refl)
                    | inr c ↦ inr (
                      record {
                        quote_id = req.fresh (length s.working.quotes);
                        row = quote_row req tname rname qr;
                      },
                      issued_state (req.fresh (length s.working.quotes))
                          (quote_row req tname rname qr) s,
                      (ground (arith, a, b, c)),
                      refl,
                      refl,
                      same,
                      refl,
                      record {
                        merchant = refl;
                        gross = refl;
                        currency = refl;
                        settle_currency = refl;
                        locked = refl;
                        priced = record {
                          tier_row = tier_row;
                          rail_row = row;
                          of_tier = of_tier;
                          of_rail = sym (get_rail_fee-same rname tname d s.working same.1) ∙ a;
                          computed = b;
                        };
                        platform_fee = refl;
                        rail_fee = refl;
                        net = refl;
                        conserved = (compute_quote_lem _ _ _ tier rail req.fx qr b).conserved;
                      },
                    )
                  ]
          ]
  ]

  issue_rails-Adds :
      (rails : List String) (s : State)
      → SameFees d s.working
      → Adds d req
          (map (λ rail. (tname, rail)) rails)
          s
          (issue_rails req (tier_charge tname tier_row) tname rails s)
  unfolding issue_rails
  issue_rails-Adds [] s same = (refl, (sym (append-nil s.working.quotes), same, refl, tt))
  issue_rails-Adds (rname ∷ rails) s same =
      let tier = tier_charge tname tier_row in
      let wanted : List (String × String) = map (λ rail. (tname, rail)) (rname ∷ rails) in
      elim (issue-cases rname s same) [
        | inl (e, t, ran, kept) ↦
            let run : issue_rails req tier tname (rname ∷ rails) s ≡ (err e, t) =
              ground (arith, ran) in
            subst (Adds d req wanted s) (sym run) (kept, tt)
        | inr (i, t, ran, kept, quotes, fees, offered, sound) ↦
            let rest = issue_rails-Adds rails t fees in
            let u = (issue_rails req tier tname rails t).1 in
            elim (Result-cases (issue_rails req tier tname rails t).0) [
              | inl (e, b) ↦
                  let run : issue_rails req tier tname (rname ∷ rails) s ≡ (err e, u) =
                    ground (arith, ran, b) in
                  subst (Adds d req wanted s) (sym run) (rest.0 ∙ kept, tt)
              | inr (is, b) ↦
                  let run : issue_rails req tier tname (rname ∷ rails) s ≡ (ok (i ∷ is), u) =
                    ground (arith, ran, b) in
                  subst (Adds d req wanted s) (sym run) (
                    Adds-cons d req s t u (tname, rname) (map (λ rail. (tname, rail)) rails) i is
                      kept quotes offered sound
                      (subst (λ r. Adds d req (map (λ rail. (tname, rail)) rails) t (r, u)) b rest))
            ]
      ]

module _ (d : PricingDb) (req : QuoteRequest) (rails : List String) where
  -- A tier is active and has fees, or the request ends there.
  tier_fee-cases :
      (tname : String) (s : State)
      → SameFees d s.working
      → (tier_fee tname s ≡ (err tier_not_found, s))
        ⊎ ((row : TierRow) × (active_tier (lookup tname d.tiers) ≡ some row)
            × (tier_fee tname s ≡ (ok (tier_charge tname row), s)))
  unfolding tier_fee
  tier_fee-cases tname s same = elim (Option-cases (active_tier (lookup tname s.working.tiers))) [
    | inl a ↦ inl (ground (arith, a))
    | inr (row, a) ↦ inr (
      row,
      subst (λ tiers. active_tier (lookup tname tiers) ≡ some row) same.0 a,
      (ground (arith, a)),
    )
  ]

  pub issue_tiers-Adds :
      (names : List String) (s : State)
      → SameFees d s.working
      → Adds d req (offers names rails) s (issue_tiers req rails names s)
  unfolding issue_tiers
  issue_tiers-Adds [] s same = (refl, (sym (append-nil s.working.quotes), same, refl, tt))
  issue_tiers-Adds (tname ∷ names) s same =
      let wanted : List (String × String) = offers (tname ∷ names) rails in
      elim (tier_fee-cases tname s same) [
        | inl a ↦
            let run : issue_tiers req rails (tname ∷ names) s ≡ (err tier_not_found, s) =
              ground (arith, a) in
            subst (Adds d req wanted s) (sym run) (refl, tt)
        | inr (row, of_tier, a) ↦
            let tier = tier_charge tname row in
            let first = issue_rails-Adds d req tname row of_tier rails s same in
            let t = (issue_rails req tier tname rails s).1 in
            elim (Result-cases (issue_rails req tier tname rails s).0) [
              | inl (e, b) ↦
                  let run : issue_tiers req rails (tname ∷ names) s ≡ (err e, t) =
                    ground (arith, a, b) in
                  subst (Adds d req wanted s) (sym run) (first.0, tt)
              | inr (is, b) ↦
                  let of_first : Adds d req (map (λ rail. (tname, rail)) rails) s (ok is, t) =
                    subst (λ r. Adds d req (map (λ rail. (tname, rail)) rails) s (r, t)) b first in
                  let rest = issue_tiers-Adds names t of_first.1.1 in
                  let u = (issue_tiers req rails names t).1 in
                  elim (Result-cases (issue_tiers req rails names t).0) [
                    | inl (e, c) ↦
                        let run : issue_tiers req rails (tname ∷ names) s ≡ (err e, u) =
                          ground (arith, a, b, c) in
                        subst (Adds d req wanted s) (sym run) (rest.0 ∙ first.0, tt)
                    | inr (js, c) ↦
                        let run : issue_tiers req rails (tname ∷ names) s ≡ (ok (is ++ js), u) =
                          ground (arith, a, b, c) in
                        subst (Adds d req wanted s) (sym run) (
                          Adds-append d req s t u (map (λ rail. (tname, rail)) rails)
                            (offers names rails) is js of_first
                            (subst (λ r. Adds d req (offers names rails) t (r, u)) c rest))
                  ]
            ]
      ]
