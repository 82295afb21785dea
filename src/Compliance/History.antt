-- ===== src/Compliance/History.antt =====
-- The answers of linkmint-backend/compliance-risk against the calls that it was given.
use mathlib.Core.List.{map-append}
use paylink.Prelude.{
  ◌≡◌, refl, sym, ap, ◌∙◌, ℕ, ◌<◌, max, ℤ, ◌+ℤ◌, ◌≤ℤ◌, String, true, Option, List, [], ◌∷◌, ◌++◌,
  length, map, select, select-append, append-nil, append_assoc, lookup, string_eq, arith, request,
  map_result, ◌⊎◌, pure, ◌>>◌, ok, inl, inr,
}
use paylink.Compliance.Engine.{
  Decision, Reason, block, RiskInputs, RiskOutcome, RiskConfig, or_nothing, is_value_action, aml,
  low_kyc, has_amount,
}
use paylink.Compliance.Engine
use paylink.Compliance.Severity.{evaluate-low_kyc}
use paylink.Compliance.Model.{
  ActivityEventRow, State, get_tier, count_activity_since, sum_amount_since, is_recent,
  total_amount,
}
use paylink.Compliance.Risk.{
  Settings, risk_config, record_outcome, report, inputs_at, evaluate, raise_flag,
}
use paylink.Compliance.Calls.{
  Call, evaluating, delivering, starting, calling_back, serve, serve_all, new_service, granted,
  payments,
}
use paylink.Compliance.Course.{
  needs_flag, verdict, flag_verdict, outbox, Course, evaluate-Course, handle-Course,
  create_session-Course, apply_callback-Course,
}

-- The outcome is the answer of a call, whatever its decision reports.
record_outcome-ok :
    (now : ℕ) (user_id action : String) (context : Option String) (decision : Decision) (score : ℕ)
    (reasons : List Reason) (answer : RiskOutcome) (s : State)
    → ((record_outcome now user_id action context
            (record { decision = decision; score = score; reasons = reasons })
          >> pure answer)
        s).0
      ≡ ok answer
unfolding record_outcome report raise_flag
record_outcome-ok now user_id action context Decision.allow score reasons answer s = refl
record_outcome-ok now user_id action context Decision.review score reasons answer s = refl
record_outcome-ok now user_id action context Decision.block score reasons answer s = refl

-- What a tier and the logged payments say about a user and an action.
abbrev pub inputs_from :
    (w : Settings) (tier : ℕ) (rows : List ActivityEventRow) (now : ℕ) (user_id action : String)
    (amount : Option ℤ) (currency : String) (geo_country registered_country : Option String)
    → RiskInputs
inputs_from w tier rows now user_id action amount currency geo_country registered_country = record {
  tier = tier;
  action = action;
  amount = amount;
  currency = currency;
  geo_country = geo_country;
  registered_country = registered_country;
  count_1h = length (select (is_recent user_id now 1) rows);
  count_24h = length (select (is_recent user_id now 24) rows);
  count_7d = length (select (is_recent user_id now 168) rows);
  cumulative_amount_window = total_amount (select (is_recent user_id now w.aml_window_hours) rows);
}

-- What the calls of the past say about a user and an action.
unfoldable pub history_inputs :
    (w : Settings) (calls : List Call) (now : ℕ) (user_id action : String) (amount : Option ℤ)
    (currency : String) (geo_country registered_country : Option String)
    → RiskInputs
history_inputs w calls now user_id =
    inputs_from w (granted user_id calls) (payments calls) now user_id

evaluate-answer :
    (w : Settings) (now : ℕ) (user_id action : String) (amount : Option ℤ) (currency : String)
    (geo_country registered_country context : Option String) (s : State)
    → (request
        (evaluate w now user_id action amount currency geo_country registered_country context)
        s).0
      ≡ ok (
          Engine.evaluate
            (inputs_from w
              (get_tier user_id s.stored)
              s.stored.activity_events
              now
              user_id
              action
              amount
              currency
              geo_country
              registered_country)
            (risk_config w))
unfolding evaluate inputs_at count_activity_since sum_amount_since
evaluate-answer w now user_id action amount currency geo_country registered_country context s =
    record_outcome-ok now user_id action context _ _ _ _ _

module _ (w : Settings) (encrypt : String → String) where
  serve-Course : (call : Call) (s : State) → Course call s (serve w encrypt call s)
  serve-Course (evaluating now u action amount currency geo registered context) s =
      evaluate-Course w encrypt now u action amount currency geo registered context s
  serve-Course (delivering now name u amount currency) s =
      handle-Course w encrypt now name u amount currency s
  serve-Course (starting provider u tier) s = create_session-Course w encrypt provider u tier s
  serve-Course (calling_back now provider body) s =
      apply_callback-Course w encrypt now provider body s

  serve_all-tier :
      (calls : List Call) (s : State) (u : String)
      → get_tier u (serve_all w encrypt calls s).stored
        ≡ max (get_tier u s.stored) (granted u calls)
  unfolding serve_all granted
  serve_all-tier [] s u = omega arith
  serve_all-tier (call ∷ calls) s u =
      omega (arith, serve_all-tier calls (serve w encrypt call s) u, (serve-Course call s).tiers u)

  new-tier :
      (calls : List Call) (u : String)
      → get_tier u (serve_all w encrypt calls new_service).stored ≡ granted u calls
  unfolding get_tier lookup
  new-tier calls u = omega (arith, serve_all-tier calls new_service u)

  serve_all-activity :
      (calls : List Call) (s : State)
      → (serve_all w encrypt calls s).stored.activity_events
        ≡ s.stored.activity_events ++ payments calls
  unfolding serve_all payments
  serve_all-activity [] s = sym (append-nil s.stored.activity_events)
  serve_all-activity (call ∷ calls) s =
      serve_all-activity calls (serve w encrypt call s)
      ∙ ap (λ rows. rows ++ payments calls) (serve-Course call s).activity
      ∙ append_assoc s.stored.activity_events _ (payments calls)

  -- After any calls on a new database an evaluation answers what the engine answers for the tier that
  -- the callbacks among them granted and the payments that they delivered, whatever was evaluated
  -- or started in between.
  pub evaluate-of_history :
      (calls : List Call) (now : ℕ) (user_id action : String) (amount : Option ℤ)
      (currency : String) (geo_country registered_country context : Option String)
      → (request
          (evaluate w now user_id action amount currency geo_country registered_country context)
          (serve_all w encrypt calls new_service)).0
        ≡ ok (
            Engine.evaluate
              (history_inputs w calls now user_id action amount currency geo_country
                registered_country)
              (risk_config w))
  unfolding history_inputs
  evaluate-of_history calls now user_id action amount currency geo_country registered_country
        context =
      let s = serve_all w encrypt calls new_service in
      evaluate-answer w now user_id action amount currency geo_country registered_country context s
      ∙ rw (new-tier calls user_id, serve_all-activity calls new_service) refl

  -- After any calls on a new database, whoever was granted no tier above the first is blocked from a
  -- value action when the payments delivered for them in the window reach, with its amount, the
  -- threshold on money laundering; whoever was granted no tier at all, when it has any amount.
  pub evaluate-blocks :
      (calls : List Call) (now : ℕ) (user_id action : String) (amount : Option ℤ)
      (currency : String) (geo_country registered_country context : Option String)
      → is_value_action action ≡ true
      → ((granted user_id calls < 2)
          × (w.aml_cumulative_threshold
              ≤ℤ total_amount (select (is_recent user_id now w.aml_window_hours) (payments calls))
                +ℤ or_nothing amount))
        ⊎ ((granted user_id calls ≡ 0) × (has_amount amount ≡ true))
      → map_result
          (λ outcome. outcome.decision)
          (request
            (evaluate w now user_id action amount currency geo_country registered_country context)
            (serve_all w encrypt calls new_service)).0
        ≡ ok block
  unfolding low_kyc aml history_inputs
  evaluate-blocks calls now user_id action amount currency geo_country registered_country context v
        h =
      rw
        (evaluate-of_history calls now user_id action amount currency geo_country registered_country
          context)
        (ap ok (
          evaluate-low_kyc _ _
            (elim h [ inl p ↦ ground (arith, v, p.0, p.1) | inr p ↦ ground (arith, v, p.0, p.1) ])))

  audit :
      (calls : List Call) (s : State)
      → map flag_verdict s.stored.flags ≡ map verdict (select needs_flag s.stored.risk_scores)
      → s.published ≡ outbox s.stored
      → let t = serve_all w encrypt calls s in
        (map flag_verdict t.stored.flags ≡ map verdict (select needs_flag t.stored.risk_scores))
        × (t.published ≡ outbox t.stored)
  unfolding serve_all
  audit [] s f p = (f, p)
  audit (call ∷ calls) s f p =
      let c = serve-Course call s in
      audit calls (serve w encrypt call s)
        (rw (c.flags, c.scores)
          (map-append flag_verdict s.stored.flags c.raised
            ∙ (ap (λ vs. vs ++ map flag_verdict c.raised) f
                ∙ (ap (λ vs. map verdict (select needs_flag s.stored.risk_scores) ++ vs) c.flagged
                    ∙ (sym (
                          map-append verdict (select needs_flag s.stored.risk_scores)
                            (select needs_flag c.scored))
                        ∙ ap (map verdict)
                            (sym (select-append needs_flag s.stored.risk_scores c.scored)))))))
        (c.echoed ∙ ap (λ es. es ++ c.reported) p ∙ sym c.events)

  -- After any calls on a new database the flags are one for each score that is not an approval, with
  -- its user, decision, score and time, in their order, and what was published is what the outbox
  -- holds, in its order.
  pub serve_all-audited :
      (calls : List Call)
      → let t = serve_all w encrypt calls new_service in
        (map flag_verdict t.stored.flags ≡ map verdict (select needs_flag t.stored.risk_scores))
        × (t.published ≡ outbox t.stored)
  serve_all-audited calls = audit calls new_service refl refl
