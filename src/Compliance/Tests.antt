-- ===== src/Compliance/Tests.antt =====
-- linkmint-backend/compliance-risk on concrete calls, and the theorems about it at these.
use paylink.Prelude.{
  ◌≤◌, pos, String, ◌≡◌, refl, true, none, some, List, [], ◌∷◌, map, select, ok, request,
  map_result, inl, arith, lookup, show, ◌+ℤ◌, ◌≤ℤ◌,
}
use paylink.Compliance.Engine.{
  Decision, allow, review, block, RiskConfig, RiskInputs, ceiling_for, is_value_action,
}
use paylink.Compliance.Engine
use paylink.Compliance.Severity.{severity, IsRiskier, evaluate_mono}
use paylink.Compliance.Model.{Metadata, scalar, nested, redact, is_recent, total_amount}
use paylink.Compliance.Risk.{Settings, risk_config, evaluate}
use paylink.Compliance.Kyc.{KycProvider}
use paylink.Compliance.Calls.{
  Call, evaluating, delivering, starting, calling_back, serve_all, new_service, grant, granted,
  payment, payments,
}
use paylink.Compliance.Course.{needs_flag, verdict, flag_verdict, outbox}
use paylink.Compliance.History.{
  history_inputs, evaluate-of_history, evaluate-blocks, serve_all-audited,
}

abbrev settings : Settings
settings = record {
  tier1_ceiling = pos 5000000;
  tier2_ceiling = none;
  aml_cumulative_threshold = pos 15000000;
  aml_window_hours = 720;
  velocity_block_24h = 50;
  velocity_review_24h = 20;
  velocity_review_1h = 10;
  score_block_threshold = 800;
  score_review_threshold = 500;
  kyc_validity_days = 365;
}

abbrev stub : KycProvider
stub = record {
  name = "stub";
  start = λ user_id tier. some (record { session_id = "s-1"; provider_url = "https://kyc" });
  parse_callback = λ body. some (record {
    user_id = "ann";
    passed = true;
    tier_granted = 1;
    provider_ref = "r-1";
    metadata = body;
  });
}

abbrev body : Metadata
body = ("status", scalar "passed") ∷ ("name", scalar "Ann") ∷ ("tier", nested "{}") ∷ []

abbrev seal : String → String
seal text = text

-- ann gets the first tier and pays 120000.00; an evaluation in between asks about 1000.00
abbrev calls : List Call
calls =
    starting stub "ann" 1
    ∷ calling_back 100 stub body
    ∷ delivering 200 "payment.initiated" (some "ann") (some (pos 12000000)) (some "KES")
    ∷ evaluating 300 "ann" "withdraw" (some (pos 100000)) "KES" none none none
    ∷ []

test_redact : redact body ≡ ("status", scalar "passed") ∷ []
unfolding redact
test_redact = refl

test_granted : granted "ann" calls ≡ 1
unfolding granted grant
test_granted = omega arith

abbrev small : RiskInputs
small = record {
  tier = 1;
  action = "withdraw";
  amount = some (pos 100000);
  currency = "KES";
  geo_country = none;
  registered_country = none;
  count_1h = 1;
  count_24h = 1;
  count_7d = 1;
  cumulative_amount_window = pos 100000;
}

abbrev large : RiskInputs
large = record small { amount = some (pos 6000000); count_24h = 25 }

abbrev rules : RiskConfig
rules = risk_config settings

test_small : (Engine.evaluate small rules).decision ≡ allow
unfolding Engine.evaluate Engine.combine Engine.hard_reasons Engine.soft_reasons Engine.low_kyc
    Engine.aml Engine.over_ceiling Engine.velocity_blocks Engine.velocity_reviews Engine.velocity_1h
    Engine.geo_mismatch Engine.is_hard Engine.total_weight Engine.soft_score is_value_action
    ceiling_for lookup show ◌+ℤ◌
test_small = refl

test_large : (Engine.evaluate large rules).decision ≡ block
unfolding Engine.evaluate Engine.combine Engine.hard_reasons Engine.soft_reasons Engine.low_kyc
    Engine.aml Engine.over_ceiling Engine.velocity_blocks Engine.velocity_reviews Engine.velocity_1h
    Engine.geo_mismatch Engine.is_hard Engine.total_weight Engine.soft_score is_value_action
    ceiling_for lookup show ◌+ℤ◌
test_large = refl

small-IsRiskier : IsRiskier rules small large
unfolding ceiling_for lookup
small-IsRiskier = record {
  action = refl;
  geo = refl;
  registered = refl;
  tier = omega arith;
  ceiling = omega arith;
  amount = omega arith;
  count_1h = omega arith;
  count_24h = omega arith;
  cumulative = omega arith;
}

evaluate_mono_example :
    (severity (Engine.evaluate small rules).decision
      ≤ severity (Engine.evaluate large rules).decision)
    × ((Engine.evaluate small rules).score ≤ (Engine.evaluate large rules).score)
evaluate_mono_example = evaluate_mono rules small large small-IsRiskier

evaluate-of_history_example :
    (request
      (evaluate settings 400 "ann" "withdraw" (some (pos 100000)) "KES" none none none)
      (serve_all settings seal calls new_service)).0
    ≡ ok (
        Engine.evaluate
          (history_inputs settings calls 400 "ann" "withdraw" (some (pos 100000)) "KES" none none)
          (risk_config settings))
evaluate-of_history_example =
    evaluate-of_history settings seal calls 400 "ann" "withdraw" (some (pos 100000)) "KES" none none
      none

withdrawal : is_value_action "withdraw" ≡ true
unfolding is_value_action
withdrawal = refl

test_sum :
    pos 15000000
    ≤ℤ total_amount (select (is_recent "ann" 400 settings.aml_window_hours) (payments calls))
      +ℤ pos 4000000
unfolding payments payment is_recent total_amount ◌+ℤ◌
test_sum = omega arith

evaluate-blocks_example :
    map_result
      (λ outcome. outcome.decision)
      (request
        (evaluate settings 400 "ann" "withdraw" (some (pos 4000000)) "KES" none none none)
        (serve_all settings seal calls new_service)).0
    ≡ ok block
evaluate-blocks_example =
    evaluate-blocks settings seal calls 400 "ann" "withdraw" (some (pos 4000000)) "KES" none none
      none withdrawal (inl ((rw test_granted (omega arith)), test_sum))

serve_all-audited_example :
    (map flag_verdict (serve_all settings seal calls new_service).stored.flags
      ≡ map verdict
          (select needs_flag (serve_all settings seal calls new_service).stored.risk_scores))
    × ((serve_all settings seal calls new_service).published
        ≡ outbox (serve_all settings seal calls new_service).stored)
serve_all-audited_example = serve_all-audited settings seal calls
