-- ===== src/Compliance/Risk.antt =====
-- linkmint-backend/compliance-risk: app/domain/risk_service.py, the settings that it reads, and the
-- consumer of app/events/consumer.py. What the consumer reads of a payload is an argument: the user
-- if it is one, the amount if it is a number, and the currency. Log lines are not modelled.
use paylink.Prelude.{
  ℕ, ℤ, pos, String, if◌then◌else◌, Option, none, some, List, [], ◌∷◌, map, Table, lookup,
  string_eq, ◌==◌, leb, sort_by, ⊤, pure, ◌>>=◌, ◌>>◌, query, commit, publish,
}
use paylink.Compliance.Engine.{
  Decision, Ceiling, infinite, bounded, RiskConfig, RiskInputs, Reason, RiskOutcome,
}
use paylink.Compliance.Engine
use paylink.Compliance.Model.{
  FlagKind, velocity, geo, manual, FlagSeverity, ReasonsPayload, CheckPayload, FlagPayload,
  check_passed, check_failed, flag_raised, Method, get_tier, insert_risk_score, insert_flag,
  insert_activity, add_event, count_activity_since, sum_amount_since,
}

pub record Settings : Type 0 where
  pub tier1_ceiling : ℤ
  -- `none` for the empty text
  pub tier2_ceiling : Option ℤ
  pub aml_cumulative_threshold : ℤ
  pub aml_window_hours : ℕ
  pub velocity_block_24h : ℕ
  pub velocity_review_24h : ℕ
  pub velocity_review_1h : ℕ
  pub score_block_threshold : ℕ
  pub score_review_threshold : ℕ
  pub kyc_validity_days : ℕ

abbrev pub risk_config : Settings → RiskConfig
risk_config w = record {
  tier_ceilings =
      (0, bounded (pos 0))
      ∷ (1, bounded w.tier1_ceiling)
      ∷ (2, elim w.tier2_ceiling [ none ↦ infinite | some ceiling ↦ bounded ceiling ])
      ∷ [];
  aml_cumulative_threshold = w.aml_cumulative_threshold;
  velocity_block_24h = w.velocity_block_24h;
  velocity_review_24h = w.velocity_review_24h;
  velocity_review_1h = w.velocity_review_1h;
  score_block_threshold = w.score_block_threshold;
  score_review_threshold = w.score_review_threshold;
}

abbrev pub kind_by_reason : Table String FlagKind
kind_by_reason =
    ("AML_THRESHOLD", velocity)
    ∷ ("VELOCITY_24H", velocity)
    ∷ ("VELOCITY_1H", velocity)
    ∷ ("GEO_MISMATCH", geo)
    ∷ []

unfoldable pub reasons_payload : List Reason → ReasonsPayload
reasons_payload reasons = map (λ r. (r.code, r.detail)) reasons

unfoldable pub first_kind : List Reason → FlagKind
first_kind [] = manual
first_kind (reason ∷ reasons) = elim (lookup reason.code kind_by_reason) [
  | some kind ↦ kind
  | none ↦ first_kind reasons
]

-- The sort keeps the order of reasons of one weight.
unfoldable pub dominant_kind : List Reason → FlagKind
unfolding first_kind
dominant_kind reasons = first_kind (sort_by (λ a b. leb b.weight a.weight) reasons)

unfoldable pub raise_flag :
    (now : ℕ) (user_id : String) (severity : FlagSeverity) (outcome : RiskOutcome) (action : String)
    → Method FlagPayload
unfolding dominant_kind reasons_payload
raise_flag now user_id severity outcome action = do
  let kind = dominant_kind outcome.reasons
  let payload : FlagPayload = record {
    user_id = user_id;
    kind = kind;
    severity = severity;
    action = action;
    decision = outcome.decision;
    score = outcome.score;
    reasons = reasons_payload outcome.reasons;
  }
  insert_flag (record {
    user_id = user_id;
    kind = kind;
    severity = severity;
    payload = payload;
    raised_at = now;
    resolved_at = none;
  })
  pure payload

unfoldable pub inputs_at :
    (w : Settings) (now : ℕ) (user_id action : String) (amount : Option ℤ) (currency : String)
    (geo_country registered_country : Option String)
    → Method RiskInputs
inputs_at w now user_id action amount currency geo_country registered_country = do
  tier ← query (get_tier user_id)
  count_1h ← query (count_activity_since user_id now 1)
  count_24h ← query (count_activity_since user_id now 24)
  count_7d ← query (count_activity_since user_id now 168)
  cumulative ← query (sum_amount_since user_id now w.aml_window_hours)
  pure (record {
    tier = tier;
    action = action;
    amount = amount;
    currency = currency;
    geo_country = geo_country;
    registered_country = registered_country;
    count_1h = count_1h;
    count_24h = count_24h;
    count_7d = count_7d;
    cumulative_amount_window = cumulative;
  })

-- what a decision writes, before the commit, and publishes after it
unfoldable pub report :
    (now : ℕ) (user_id action : String) (outcome : RiskOutcome) (check_payload : CheckPayload)
    → Method ⊤
unfolding raise_flag
report now user_id action outcome check_payload = elim outcome.decision [
  | Decision.block ↦ do
    flag_payload ← raise_flag now user_id FlagSeverity.block outcome action
    add_event "risk" user_id (check_failed check_payload)
    add_event "flag" user_id (flag_raised flag_payload)
    commit
    publish (check_failed check_payload)
    publish (flag_raised flag_payload)
  | Decision.review ↦ do
    flag_payload ← raise_flag now user_id FlagSeverity.warn outcome action
    add_event "flag" user_id (flag_raised flag_payload)
    commit
    publish (flag_raised flag_payload)
  | Decision.allow ↦ do
    add_event "risk" user_id (check_passed check_payload)
    commit
    publish (check_passed check_payload)
]

-- `context or action`
abbrev pub or_action : Option String → String → String
or_action none action = action
or_action (some context) action = if context == "" then action else context

-- what is done with an outcome
unfoldable pub record_outcome :
    (now : ℕ) (user_id action : String) (context : Option String) (outcome : RiskOutcome) → Method ⊤
unfolding reasons_payload report
record_outcome now user_id action context outcome = do
  insert_risk_score (record {
    user_id = user_id;
    context = or_action context action;
    score = outcome.score;
    decision = outcome.decision;
    reasons = reasons_payload outcome.reasons;
    evaluated_at = now;
  })
  report now user_id action outcome (record {
    user_id = user_id;
    action = action;
    decision = outcome.decision;
    score = outcome.score;
    reasons = reasons_payload outcome.reasons;
  })

unfoldable pub evaluate :
    (w : Settings) (now : ℕ) (user_id action : String) (amount : Option ℤ) (currency : String)
    (geo_country registered_country context : Option String)
    → Method RiskOutcome
unfolding inputs_at record_outcome
evaluate w now user_id action amount currency geo_country registered_country context = do
  inputs ← inputs_at w now user_id action amount currency geo_country registered_country
  let outcome = Engine.evaluate inputs (risk_config w)
  record_outcome now user_id action context outcome
  pure outcome

unfoldable pub record_activity :
    (now : ℕ) (user_id action : String) (amount : Option ℤ) (currency : Option String) → Method ⊤
record_activity now user_id action amount currency = do
  insert_activity (record {
    user_id = user_id;
    action = action;
    amount = amount;
    currency = currency;
    occurred_at = now;
  })
  commit

unfoldable pub handle_payment_initiated :
    (now : ℕ) (user_id : Option String) (amount : Option ℤ) (currency : Option String) → Method ⊤
unfolding record_activity
handle_payment_initiated now none amount currency = pure tt
handle_payment_initiated now (some user_id) amount currency =
    record_activity now user_id "payment.initiated" amount currency

-- `paylink.requested` and unknown names are only logged.
unfoldable pub handle :
    (now : ℕ) (name : String) (user_id : Option String) (amount : Option ℤ)
    (currency : Option String)
    → Method ⊤
unfolding handle_payment_initiated
handle now name user_id amount currency =
    if name == "payment.initiated"
    then handle_payment_initiated now user_id amount currency
    else pure tt
