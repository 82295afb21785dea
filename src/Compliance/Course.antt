-- ===== src/Compliance/Course.antt =====
-- What one call of linkmint-backend/compliance-risk does to the tiers, the payments, the scores, the
-- flags and the events.
use mathlib.Core.List.{map-append}
use paylink.Prelude.{
  ◌≡◌, refl, sym, ap, ◌∙◌, ℕ, max, ℤ, String, Bool, true, false, if◌then◌else◌, Option, none, some,
  List, [], ◌∷◌, ◌++◌, map, append_assoc, select, append-nil, Table, lookup, insert, lookup-insert,
  string_eq, ◌==◌, eq_iff_at, arith, Bool-cases, Option-cases, leb, nat_eq, ◌||◌, inl, inr, request,
  pure, ◌>>◌,
}
use paylink.Compliance.Engine.{Decision, Reason, RiskOutcome}
use paylink.Compliance.Model.{
  Metadata, KycRecordRow, RiskScoreRow, ComplianceEventRow, FlagRow, Event, ComplianceDb, State,
  kyc_passed, kyc_failed, get_tier, tier_of,
}
use paylink.Compliance.Risk.{
  Settings, raise_flag, report, inputs_at, record_outcome, evaluate, record_activity,
  handle_payment_initiated, handle,
}
use paylink.Compliance.Kyc.{
  CallbackResult, KycProvider, started_row, passed_row, failed_row, create_session, callback_passed,
  callback_failed, apply_callback,
}
use paylink.Compliance.Calls.{Call, serve, grant, payment}

-- who was scored, how, and when
abbrev pub Verdict : Type 0
Verdict = String × (Decision × (ℕ × ℕ))

abbrev pub needs_flag : RiskScoreRow → Bool
needs_flag row = elim row.decision [
  | Decision.allow ↦ false
  | Decision.block ↦ true
  | Decision.review ↦ true
]

abbrev pub verdict : RiskScoreRow → Verdict
verdict row = (row.user_id, (row.decision, (row.score, row.evaluated_at)))

abbrev pub flag_verdict : FlagRow → Verdict
flag_verdict row = (row.user_id, (row.payload.decision, (row.payload.score, row.raised_at)))

abbrev pub outbox : ComplianceDb → List Event
outbox d = map (λ row. row.event) d.compliance_events

-- The scores and the flags that a call adds, and the events that it reports.
pub record Course (call : Call) (s t : State) : Type 0 where
  pub tiers :
      (user_id : String)
      → get_tier user_id t.stored ≡ max (get_tier user_id s.stored) (grant user_id call)
  pub activity : t.stored.activity_events ≡ s.stored.activity_events ++ payment call
  pub scored : List RiskScoreRow
  pub scores : t.stored.risk_scores ≡ s.stored.risk_scores ++ scored
  pub raised : List FlagRow
  pub flags : t.stored.flags ≡ s.stored.flags ++ raised
  pub flagged : map flag_verdict raised ≡ map verdict (select needs_flag scored)
  pub reported : List Event
  pub events : outbox t.stored ≡ outbox s.stored ++ reported
  pub echoed : t.published ≡ s.published ++ reported

-- A call that scores nobody: it may write a KYC record, log payments and report events.
quiet-Course :
    (call : Call) (s t : State) (kyc : Table String KycRecordRow) (rows : List ComplianceEventRow)
    → t.stored ≡ record s.stored {
      kyc_records = kyc;
      activity_events = s.stored.activity_events ++ payment call;
      compliance_events = s.stored.compliance_events ++ rows;
    }
    → t.published ≡ s.published ++ map (λ row. row.event) rows
    → ((u : String) → tier_of (lookup u kyc) ≡ max (get_tier u s.stored) (grant u call))
    → Course call s t
unfolding get_tier
quiet-Course call s t kyc rows stored published tiers = record {
  tiers = λ u. ap (get_tier u) stored ∙ tiers u;
  activity = ap (λ d. d.activity_events) stored;
  scored = [];
  scores = ap (λ d. d.risk_scores) stored ∙ sym (append-nil s.stored.risk_scores);
  raised = [];
  flags = ap (λ d. d.flags) stored ∙ sym (append-nil s.stored.flags);
  flagged = refl;
  reported = map (λ row. row.event) rows;
  events =
      ap outbox stored
      ∙ map-append (λ (row : ComplianceEventRow). row.event) s.stored.compliance_events rows;
  echoed = published;
}

idle-Course :
    (call : Call) (s t : State)
    → t.stored ≡ s.stored
    → t.published ≡ s.published
    → ((u : String) → grant u call ≡ 0)
    → payment call ≡ []
    → Course call s t
unfolding get_tier
idle-Course call s t same quiet g p =
    quiet-Course call s t s.stored.kyc_records []
      (ground (
        arith,
        same,
        p,
        append-nil s.stored.activity_events,
        append-nil s.stored.compliance_events,
      ))
      (quiet ∙ sym (append-nil s.published)) (λ u. omega (arith, g u))

tier_of-insert :
    (user_id u : String) (row : KycRecordRow) (kyc : Table String KycRecordRow)
    → tier_of (lookup u (insert user_id row kyc))
      ≡ (if user_id == u then row.tier else tier_of (lookup u kyc))
tier_of-insert user_id u row kyc =
    ground (arith, lookup-insert user_id u row kyc, Bool-cases (user_id == u))

-- A state that an outcome leaves, whatever the outcome is.
record_outcome-Course :
    (now : ℕ) (user_id action : String) (context : Option String) (decision : Decision) (score : ℕ)
    (reasons : List Reason) (answer : RiskOutcome) (call : Call) (s : State)
    → ((u : String) → grant u call ≡ 0)
    → payment call ≡ []
    → Course call s
        (request
          (record_outcome now user_id action context
              (record { decision = decision; score = score; reasons = reasons })
            >> pure answer)
          s).1
unfolding record_outcome report raise_flag get_tier
record_outcome-Course now user_id action context Decision.allow score reasons answer call s g p =
    record {
      tiers = λ u. omega (arith, g u);
      activity = rw p (sym (append-nil s.stored.activity_events));
      scored = _;
      scores = refl;
      raised = [];
      flags = sym (append-nil s.stored.flags);
      flagged = refl;
      reported = _;
      echoed = refl;
      events = simp (map-append) refl;
    }
record_outcome-Course now user_id action context Decision.review score reasons answer call s g p =
    record {
      tiers = λ u. omega (arith, g u);
      activity = rw p (sym (append-nil s.stored.activity_events));
      scored = _;
      scores = refl;
      raised = _;
      flags = refl;
      flagged = refl;
      reported = _;
      echoed = refl;
      events = simp (map-append) refl;
    }
record_outcome-Course now user_id action context Decision.block score reasons answer call s g p =
    record {
      tiers = λ u. omega (arith, g u);
      activity = rw p (sym (append-nil s.stored.activity_events));
      scored = _;
      scores = refl;
      raised = _;
      flags = refl;
      flagged = refl;
      reported = _;
      echoed = append_assoc s.published _ _;
      events = simp (map-append, append_assoc) refl;
    }

abbrev told : CallbackResult → Event → ComplianceEventRow
told result event = record { subject_type = "user"; subject_id = result.user_id; event = event }

module _ (w : Settings) (encrypt : String → String) where
  pub evaluate-Course :
      (now : ℕ) (user_id action : String) (amount : Option ℤ) (currency : String)
      (geo_country registered_country context : Option String) (s : State)
      → let call =
          Call.evaluating now user_id action amount currency geo_country registered_country
            context in
        Course call s (serve w encrypt call s)
  unfolding serve evaluate inputs_at grant payment
  evaluate-Course now user_id action amount currency geo registered context s =
      record_outcome-Course now user_id action context _ _ _ _ _ s (λ u. refl) refl

  pub handle-Course :
      (now : ℕ) (name : String) (user_id : Option String) (amount : Option ℤ)
      (currency : Option String) (s : State)
      → let call = Call.delivering now name user_id amount currency in
        Course call s (serve w encrypt call s)
  unfolding serve handle handle_payment_initiated record_activity grant payment get_tier
  handle-Course now name none amount currency s = elim (Bool-cases (name == "payment.initiated")) [
    | inl e ↦ idle-Course _ _ _ (ground (arith, e)) (ground (arith, e)) (λ u. refl) refl
    | inr e ↦ idle-Course _ _ _ (ground (arith, e)) (ground (arith, e)) (λ u. refl) refl
  ]
  handle-Course now name (some user_id) amount currency s =
      elim (Bool-cases (name == "payment.initiated")) [
        | inl e ↦
            quiet-Course _ s _ s.stored.kyc_records []
              (ground (arith, e, append-nil s.stored.compliance_events))
              (ground (arith, e, append-nil s.published)) (λ u. omega arith)
        | inr e ↦
            idle-Course _ _ _ (ground (arith, e)) (ground (arith, e)) (λ u. refl)
              (ground (arith, e))
      ]

  pub create_session-Course :
      (provider : KycProvider) (user_id : String) (tier_requested : ℕ) (s : State)
      → let call = Call.starting provider user_id tier_requested in
        Course call s (serve w encrypt call s)
  unfolding serve create_session grant payment get_tier
  create_session-Course provider user_id tier_requested s =
      let existing = lookup user_id s.stored.kyc_records in
      elim (Bool-cases (tier_requested == 1 || tier_requested == 2)) [
        | inr a ↦ idle-Course _ _ _ (ground (arith, a)) (ground (arith, a)) (λ u. refl) refl
        | inl a ↦ elim (Bool-cases (leb tier_requested (tier_of existing))) [
          | inl b ↦ idle-Course _ _ _ (ground (arith, a, b)) (ground (arith, a, b)) (λ u. refl) refl
          | inr b ↦ elim (Option-cases (provider.start user_id tier_requested)) [
            | inl c ↦
                idle-Course _ _ _ (ground (arith, a, b, c)) (ground (arith, a, b, c)) (λ u. refl)
                  refl
            | inr (started, c) ↦
                let row = started_row encrypt provider.name started existing in
                quiet-Course _ s _ (insert user_id row s.stored.kyc_records) []
                  (ground (
                    arith,
                    a,
                    b,
                    c,
                    append-nil s.stored.activity_events,
                    append-nil s.stored.compliance_events,
                  ))
                  (ground (arith, a, b, c, append-nil s.published))
                  (λ u.
                    ground (
                      arith,
                      tier_of-insert user_id u row s.stored.kyc_records,
                      eq_iff_at user_id u,
                    ))
          ]
        ]
      ]

  pub apply_callback-Course :
      (now : ℕ) (provider : KycProvider) (body : Metadata) (s : State)
      → let call = Call.calling_back now provider body in Course call s (serve w encrypt call s)
  unfolding serve apply_callback callback_passed callback_failed grant payment get_tier
  apply_callback-Course now provider body s = elim (Option-cases (provider.parse_callback body)) [
    | inl a ↦
        idle-Course _ _ _ (ground (arith, a)) (ground (arith, a)) (λ u. ground (arith, a)) refl
    | inr (result, a) ↦
        let existing = lookup result.user_id s.stored.kyc_records in
        elim (Bool-cases result.passed) [
          | inl b ↦
              let row = passed_row w encrypt now provider.name result existing in
              quiet-Course _ s _ (insert result.user_id row s.stored.kyc_records)
                (told result (kyc_passed result.user_id row.tier) ∷ [])
                (ground (arith, a, b, append-nil s.stored.activity_events)) (ground (arith, a, b))
                (λ u. ground (
                  arith,
                  a,
                  b,
                  tier_of-insert result.user_id u row s.stored.kyc_records,
                  eq_iff_at result.user_id u,
                ))
          | inr b ↦
              let row = failed_row encrypt provider.name result existing in
              quiet-Course _ s _ (insert result.user_id row s.stored.kyc_records)
                (told result (kyc_failed result.user_id) ∷ [])
                (ground (arith, a, b, append-nil s.stored.activity_events)) (ground (arith, a, b))
                (λ u. ground (
                  arith,
                  a,
                  b,
                  tier_of-insert result.user_id u row s.stored.kyc_records,
                  eq_iff_at result.user_id u,
                ))
        ]
  ]
