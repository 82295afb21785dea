-- ===== src/Compliance/Engine.antt =====
-- linkmint-backend/compliance-risk/app/domain/risk_engine.py. Amounts are whole numbers of a
-- hundredth, the last digit of the amount columns; weights, scores and their thresholds are whole
-- numbers of a thousandth, to which the code rounds the score. A threshold between two of them is
-- the upper one. The ceiling of a tier may be `Decimal("Infinity")`.
use Prim.Native.String.{◌++◌ as append}
use paylink.Prelude.{
  ℕ, ◌+◌, min, ℤ, pos, ◌+ℤ◌, ltb_ℤ, leb_ℤ, String, Bool, true, false, not, ◌&&◌, ◌||◌,
  if◌then◌else◌, Option, none, some, List, [], ◌∷◌, ◌++◌, any, select, Table, lookup, nat_eq,
  string_eq, ◌==◌, leb, ltb, upper, show,
}

abbrev pub value_actions : List String
value_actions = "paylink.create" ∷ "payment.initiate" ∷ "withdraw" ∷ []

pub data Decision : Type 0 where
  allow block review : Decision

pub data Ceiling : Type 0 where
  infinite : Ceiling
  bounded : ℤ → Ceiling

pub record RiskConfig : Type 0 where
  pub tier_ceilings : Table ℕ Ceiling
  pub aml_cumulative_threshold : ℤ
  pub velocity_block_24h : ℕ
  pub velocity_review_24h : ℕ
  pub velocity_review_1h : ℕ
  pub score_block_threshold : ℕ
  pub score_review_threshold : ℕ

pub record RiskInputs : Type 0 where
  pub tier : ℕ
  pub action : String
  pub amount : Option ℤ
  pub currency : String
  pub geo_country : Option String
  pub registered_country : Option String
  pub count_1h : ℕ
  pub count_24h : ℕ
  pub count_7d : ℕ
  pub cumulative_amount_window : ℤ

pub record Reason : Type 0 where
  pub code : String
  pub detail : String
  pub weight : ℕ

pub record RiskOutcome : Type 0 where
  pub decision : Decision
  pub score : ℕ
  pub reasons : List Reason

unfoldable pub ceiling_for : RiskConfig → ℕ → Ceiling
unfolding lookup
ceiling_for cfg tier = elim (lookup tier cfg.tier_ceilings) [
  | some ceiling ↦ ceiling
  | none ↦ elim (lookup 0 cfg.tier_ceilings) [ some ceiling ↦ ceiling | none ↦ bounded (pos 0) ]
]

abbrev pub exceeds : ℤ → Ceiling → Bool
exceeds amount infinite = false
exceeds amount (bounded ceiling) = ltb_ℤ ceiling amount

-- `amount or Decimal(0)`
abbrev pub or_nothing : Option ℤ → ℤ
or_nothing none = pos 0
or_nothing (some amount) = amount

abbrev pub has_amount : Option ℤ → Bool
has_amount none = false
has_amount (some amount) = ltb_ℤ (pos 0) amount

unfoldable pub is_value_action : String → Bool
is_value_action action = any (λ name. name == action) value_actions

module _ (inputs : RiskInputs) (cfg : RiskConfig) where
  -- the conditions of the rules, in their order
  unfoldable pub low_kyc : Bool
  low_kyc = is_value_action inputs.action && leb inputs.tier 0 && has_amount inputs.amount

  unfoldable pub aml : Bool
  aml =
      is_value_action inputs.action
      && leb_ℤ cfg.aml_cumulative_threshold
          (inputs.cumulative_amount_window +ℤ or_nothing inputs.amount)
      && ltb inputs.tier 2

  unfoldable pub over_ceiling : Bool
  over_ceiling = is_value_action inputs.action && elim inputs.amount [
    | none ↦ false
    | some amount ↦ exceeds amount (ceiling_for cfg inputs.tier)
  ]

  unfoldable pub velocity_blocks : Bool
  velocity_blocks = leb cfg.velocity_block_24h inputs.count_24h

  unfoldable pub velocity_reviews : Bool
  velocity_reviews = leb cfg.velocity_review_24h inputs.count_24h

  unfoldable pub velocity_1h : Bool
  velocity_1h = leb cfg.velocity_review_1h inputs.count_1h

-- texts that are present, not empty and differ in upper case
unfoldable pub geo_mismatch : Option String → Option String → Bool
geo_mismatch none registered = false
geo_mismatch (some geo) none = false
geo_mismatch (some geo) (some registered) =
    not (geo == "") && not (registered == "") && not (upper geo == upper registered)

abbrev pub reason_if : Bool → String → String → ℕ → List Reason
reason_if false code detail weight = []
reason_if true code detail weight = record { code = code; detail = detail; weight = weight } ∷ []

abbrev pub hard_codes : List String
hard_codes = "LOW_KYC" ∷ "AML_THRESHOLD" ∷ "AMOUNT_OVER_TIER_CEILING" ∷ []

unfoldable pub is_hard : Reason → Bool
is_hard reason = any (λ code. code == reason.code) hard_codes

-- `sum(r.weight for r in reasons)`
unfoldable pub total_weight : List Reason → ℕ
total_weight [] = 0
total_weight (reason ∷ reasons) = reason.weight + total_weight reasons

unfoldable pub hard_reasons : RiskInputs → RiskConfig → List Reason
hard_reasons inputs cfg =
    reason_if (low_kyc inputs cfg) "LOW_KYC"
      "tier-0 user cannot perform a value action with a non-zero amount" 1000
    ++ reason_if (aml inputs cfg) "AML_THRESHOLD"
        (append "cumulative amount over the window crosses the Kenya AML threshold "
          "without enhanced (tier-2) KYC")
        1000
    ++ reason_if (over_ceiling inputs cfg) "AMOUNT_OVER_TIER_CEILING"
        (append "amount exceeds the tier-" (append (show inputs.tier) " per-transaction ceiling"))
        600

unfoldable pub soft_reasons : RiskInputs → RiskConfig → List Reason
soft_reasons inputs cfg =
    (if velocity_blocks inputs cfg
      then reason_if true "VELOCITY_24H"
          (append (show inputs.count_24h) " actions in 24h exceeds the block threshold") 800
      else reason_if (velocity_reviews inputs cfg) "VELOCITY_24H"
          (append (show inputs.count_24h) " actions in 24h exceeds the review threshold") 400)
    ++ reason_if (velocity_1h inputs cfg) "VELOCITY_1H"
        (append (show inputs.count_1h) " actions in 1h exceeds the review threshold") 300
    ++ reason_if (geo_mismatch inputs.geo_country inputs.registered_country) "GEO_MISMATCH"
        "geo-IP country differs from the registered country" 300

abbrev pub weigh : Bool → ℕ → ℕ
weigh test weight = if test then weight else 0

unfoldable pub soft_score : RiskInputs → RiskConfig → ℕ
soft_score inputs cfg =
    (if velocity_blocks inputs cfg then 800 else weigh (velocity_reviews inputs cfg) 400)
    + weigh (velocity_1h inputs cfg) 300
    + weigh (geo_mismatch inputs.geo_country inputs.registered_country) 300

unfoldable pub combine : (hard_block hard_review : Bool) (score : ℕ) (cfg : RiskConfig) → Decision
combine hard_block hard_review score cfg =
    if hard_block || leb cfg.score_block_threshold score
    then block
    else if hard_review || leb cfg.score_review_threshold score
    then review
    else allow

unfoldable pub evaluate : RiskInputs → RiskConfig → RiskOutcome
evaluate inputs cfg =
    let reasons = hard_reasons inputs cfg ++ soft_reasons inputs cfg in
    let hard_block = low_kyc inputs cfg || aml inputs cfg && leb inputs.tier 1 in
    let hard_review =
      aml inputs cfg && not (leb inputs.tier 1)
      || over_ceiling inputs cfg
      || velocity_blocks inputs cfg in
    let score = min 1000 (soft_score inputs cfg + total_weight (select is_hard reasons)) in
    record { decision = combine hard_block hard_review score cfg; score = score; reasons = reasons }
