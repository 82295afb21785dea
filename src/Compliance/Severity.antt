-- ===== src/Compliance/Severity.antt =====
-- How the answer of the risk engine moves with its inputs.
use paylink.Prelude.{
  ◌≡◌, ℕ, ◌+◌, ◌≤◌, min, ℤ, pos, ◌≤ℤ◌, +ℤ_mono, Bool, true, false, Option, none, some, List, [],
  ◌∷◌, ◌++◌, select, arith, Bool-cases, leb, ap, String, select-append, if◌then◌else◌, ◌||◌,
}
use paylink.Compliance.Engine.{
  Decision, allow, block, review, Ceiling, infinite, bounded, RiskConfig, RiskInputs, Reason,
  ceiling_for, exceeds, or_nothing, has_amount, is_value_action, low_kyc, aml, over_ceiling,
  velocity_blocks, velocity_reviews, velocity_1h, geo_mismatch, reason_if, is_hard, total_weight,
  hard_reasons, soft_reasons, weigh, soft_score, combine, evaluate,
}

-- `allow` before `review` before `block`
abbrev pub severity : Decision → ℕ
severity allow = 0
severity review = 1
severity block = 2

-- A missing amount is no more than any that is not negative.
abbrev pub AmountUpTo : Option ℤ → Option ℤ → Type 0
AmountUpTo none none = Unit
AmountUpTo none (some b) = pos 0 ≤ℤ b
AmountUpTo (some a) none = ⊥
AmountUpTo (some a) (some b) = a ≤ℤ b

abbrev pub CeilingUpTo : Ceiling → Ceiling → Type 0
CeilingUpTo a infinite = Unit
CeilingUpTo infinite (bounded b) = ⊥
CeilingUpTo (bounded a) (bounded b) = a ≤ℤ b

-- The second inputs are the first with no lower amounts and counts, and no higher tier or ceiling.
pub record IsRiskier (cfg : RiskConfig) (i j : RiskInputs) : Type 0 where
  pub action : i.action ≡ j.action
  pub geo : i.geo_country ≡ j.geo_country
  pub registered : i.registered_country ≡ j.registered_country
  pub tier : j.tier ≤ i.tier
  pub ceiling : CeilingUpTo (ceiling_for cfg j.tier) (ceiling_for cfg i.tier)
  pub amount : AmountUpTo i.amount j.amount
  pub count_1h : i.count_1h ≤ j.count_1h
  pub count_24h : i.count_24h ≤ j.count_24h
  pub cumulative : i.cumulative_amount_window ≤ℤ j.cumulative_amount_window

abbrev Implies : Bool → Bool → Type 0
Implies a b = a ≡ true → b ≡ true

has_amount-Implies : (a b : Option ℤ) → AmountUpTo a b → Implies (has_amount a) (has_amount b)
has_amount-Implies none b h e = ground (arith, e)
has_amount-Implies (some a) none h e = elim h [ ]
has_amount-Implies (some a) (some b) h e = ground (arith, h, e)

or_nothing_mono : (a b : Option ℤ) → AmountUpTo a b → or_nothing a ≤ℤ or_nothing b
or_nothing_mono none none h = omega arith
or_nothing_mono none (some b) h = h
or_nothing_mono (some a) none h = elim h [ ]
or_nothing_mono (some a) (some b) h = h

exceeds-Implies :
    (a b : ℤ) (c d : Ceiling) → a ≤ℤ b → CeilingUpTo d c → Implies (exceeds a c) (exceeds b d)
exceeds-Implies a b infinite d h k e = ground (arith, e)
exceeds-Implies a b (bounded c) infinite h k e = elim k [ ]
exceeds-Implies a b (bounded c) (bounded d) h k e = ground (arith, h, k, e)

-- the test of an amount that may be missing against a ceiling
abbrev amount_exceeds : Option ℤ → Ceiling → Bool
amount_exceeds amount ceiling = elim amount [ none ↦ false | some a ↦ exceeds a ceiling ]

amount_exceeds-Implies :
    (a b : Option ℤ) (c d : Ceiling)
    → AmountUpTo a b
    → CeilingUpTo d c
    → Implies (amount_exceeds a c) (amount_exceeds b d)
amount_exceeds-Implies none b c d h k e = ground (arith, e)
amount_exceeds-Implies (some a) none c d h k e = elim h [ ]
amount_exceeds-Implies (some a) (some b) c d h k e = exceeds-Implies a b c d h k e

module _ (cfg : RiskConfig) (i j : RiskInputs) (r : IsRiskier cfg i j) where
  low_kyc-Implies : Implies (low_kyc i cfg) (low_kyc j cfg)
  unfolding low_kyc
  low_kyc-Implies h = ground (
    arith,
    h,
    r.tier,
    ap is_value_action r.action,
    has_amount-Implies i.amount j.amount r.amount,
    Bool-cases (has_amount i.amount),
  )

  aml-Implies : Implies (aml i cfg) (aml j cfg)
  unfolding aml
  aml-Implies h =
      let reached =
        +ℤ_mono i.cumulative_amount_window j.cumulative_amount_window (or_nothing i.amount)
          (or_nothing j.amount) r.cumulative (or_nothing_mono i.amount j.amount r.amount) in
      ground (arith, h, r.tier, ap is_value_action r.action, reached)

  over_ceiling-Implies : Implies (over_ceiling i cfg) (over_ceiling j cfg)
  unfolding over_ceiling
  over_ceiling-Implies h = ground (
    arith,
    h,
    ap is_value_action r.action,
    amount_exceeds-Implies i.amount j.amount (ceiling_for cfg i.tier) (ceiling_for cfg j.tier)
        r.amount r.ceiling,
  )

  velocity_blocks-Implies : Implies (velocity_blocks i cfg) (velocity_blocks j cfg)
  unfolding velocity_blocks
  velocity_blocks-Implies h = ground (arith, r.count_24h)

  velocity_reviews-Implies : Implies (velocity_reviews i cfg) (velocity_reviews j cfg)
  unfolding velocity_reviews
  velocity_reviews-Implies h = ground (arith, r.count_24h)

  velocity_1h-Implies : Implies (velocity_1h i cfg) (velocity_1h j cfg)
  unfolding velocity_1h
  velocity_1h-Implies h = ground (arith, r.count_1h)

total_weight-append :
    (xs ys : List Reason) → total_weight (xs ++ ys) ≡ total_weight xs + total_weight ys
unfolding total_weight
total_weight-append [] ys = omega arith
total_weight-append (x ∷ xs) ys = omega (arith, total_weight-append xs ys)

-- what the reasons with a hard code weigh
abbrev hard_weight : List Reason → ℕ
hard_weight reasons = total_weight (select is_hard reasons)

hard_weight-append :
    (xs ys : List Reason) → hard_weight (xs ++ ys) ≡ hard_weight xs + hard_weight ys
hard_weight-append xs ys =
    rw (select-append is_hard xs ys) (total_weight-append (select is_hard xs) (select is_hard ys))

-- A reason counts when its code is hard.
hard_weight-reason_if :
    (test : Bool) (code detail : String) (weight : ℕ)
    → hard_weight (reason_if test code detail weight) ≡ (
        if is_hard (record { code = code; detail = detail; weight = weight })
        then weigh test weight
        else 0)
unfolding total_weight
hard_weight-reason_if false code detail weight =
    ground (arith, Bool-cases (is_hard (record { code = code; detail = detail; weight = weight })))
hard_weight-reason_if true code detail weight =
    ground (arith, Bool-cases (is_hard (record { code = code; detail = detail; weight = weight })))

module _ (inputs : RiskInputs) (cfg : RiskConfig) where
  hard_weight-hard_reasons :
      hard_weight (hard_reasons inputs cfg)
      ≡ weigh (low_kyc inputs cfg) 1000
        + (weigh (aml inputs cfg) 1000 + weigh (over_ceiling inputs cfg) 600)
  unfolding hard_reasons is_hard total_weight
  hard_weight-hard_reasons = ground (
    arith,
    Bool-cases (low_kyc inputs cfg),
    Bool-cases (aml inputs cfg),
    Bool-cases (over_ceiling inputs cfg),
  )

  hard_weight-soft_reasons : hard_weight (soft_reasons inputs cfg) ≡ 0
  unfolding soft_reasons is_hard total_weight
  hard_weight-soft_reasons = ground (
    arith,
    Bool-cases (velocity_blocks inputs cfg),
    Bool-cases (velocity_reviews inputs cfg),
    Bool-cases (velocity_1h inputs cfg),
    Bool-cases (geo_mismatch inputs.geo_country inputs.registered_country),
  )

  -- the score, by the tests
  pub evaluate-score :
      (evaluate inputs cfg).score
      ≡ min 1000 (
          soft_score inputs cfg
          + (weigh (low_kyc inputs cfg) 1000
              + (weigh (aml inputs cfg) 1000 + weigh (over_ceiling inputs cfg) 600)))
  unfolding evaluate
  evaluate-score = omega (
    arith,
    hard_weight-append (hard_reasons inputs cfg) (soft_reasons inputs cfg),
    hard_weight-hard_reasons,
    hard_weight-soft_reasons,
  )

weigh_mono : (a b : Bool) (weight : ℕ) → Implies a b → weigh a weight ≤ weigh b weight
weigh_mono a b weight h = ground (arith, h, Bool-cases a)

combine_mono :
    (hb hr hb' hr' : Bool) (score score' : ℕ) (cfg : RiskConfig)
    → Implies hb hb'
    → Implies hr hr'
    → score ≤ score'
    → severity (combine hb hr score cfg) ≤ severity (combine hb' hr' score' cfg)
unfolding combine
combine_mono hb hr hb' hr' score score' cfg p q h =
    ground (arith, p, q, h, Bool-cases hb, Bool-cases hr)

soft_score_mono :
    (cfg : RiskConfig) (i j : RiskInputs) → IsRiskier cfg i j → soft_score i cfg ≤ soft_score j cfg
unfolding soft_score
soft_score_mono cfg i j r = ground (
  arith,
  velocity_blocks-Implies cfg i j r,
  velocity_reviews-Implies cfg i j r,
  velocity_1h-Implies cfg i j r,
  r.geo,
  r.registered,
  Bool-cases (velocity_blocks i cfg),
  Bool-cases (velocity_reviews i cfg),
  Bool-cases (velocity_1h i cfg),
)

score_mono :
    (cfg : RiskConfig) (i j : RiskInputs)
    → IsRiskier cfg i j
    → (evaluate i cfg).score ≤ (evaluate j cfg).score
score_mono cfg i j r = omega (
  arith,
  evaluate-score i cfg,
  evaluate-score j cfg,
  soft_score_mono cfg i j r,
  weigh_mono (low_kyc i cfg) (low_kyc j cfg) 1000 (low_kyc-Implies cfg i j r),
  weigh_mono (aml i cfg) (aml j cfg) 1000 (aml-Implies cfg i j r),
  weigh_mono (over_ceiling i cfg) (over_ceiling j cfg) 600 (over_ceiling-Implies cfg i j r),
)

-- The rule on money laundering holds for tiers up to one only.
aml-tier : (inputs : RiskInputs) (cfg : RiskConfig) → Implies (aml inputs cfg) (leb inputs.tier 1)
unfolding aml
aml-tier inputs cfg h = ground (arith, h)

decision_mono :
    (cfg : RiskConfig) (i j : RiskInputs)
    → IsRiskier cfg i j
    → severity (evaluate i cfg).decision ≤ severity (evaluate j cfg).decision
unfolding evaluate
decision_mono cfg i j r =
    combine_mono _ _ _ _ (evaluate i cfg).score (evaluate j cfg).score cfg
      (λ h. ground (
        arith,
        h,
        low_kyc-Implies cfg i j r,
        aml-Implies cfg i j r,
        aml-tier j cfg,
        Bool-cases (low_kyc i cfg),
        Bool-cases (aml i cfg),
      ))
      (λ h. ground (
        arith,
        h,
        aml-tier i cfg,
        over_ceiling-Implies cfg i j r,
        velocity_blocks-Implies cfg i j r,
        Bool-cases (aml i cfg),
        Bool-cases (over_ceiling i cfg),
      ))
      (score_mono cfg i j r)

-- More money, more activity or a lower tier, with a ceiling that is no higher, never makes the
-- answer of the engine milder or its score lower.
pub evaluate_mono :
    (cfg : RiskConfig) (i j : RiskInputs)
    → IsRiskier cfg i j
    → (severity (evaluate i cfg).decision ≤ severity (evaluate j cfg).decision)
      × ((evaluate i cfg).score ≤ (evaluate j cfg).score)
evaluate_mono cfg i j r = (decision_mono cfg i j r, score_mono cfg i j r)

-- the two rules that block whatever the thresholds are
pub evaluate-low_kyc :
    (inputs : RiskInputs) (cfg : RiskConfig)
    → low_kyc inputs cfg || aml inputs cfg ≡ true
    → (evaluate inputs cfg).decision ≡ block
unfolding evaluate combine
evaluate-low_kyc inputs cfg h =
    ground
      (arith, h, aml-tier inputs cfg, Bool-cases (low_kyc inputs cfg), Bool-cases (aml inputs cfg))
