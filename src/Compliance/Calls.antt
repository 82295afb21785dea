-- ===== src/Compliance/Calls.antt =====
-- linkmint-backend/compliance-risk under any sequence of calls of its services and its consumer.
use paylink.Prelude.{
  ℕ, max, ℤ, String, if◌then◌else◌, Option, none, some, List, [], ◌∷◌, ◌++◌, string_eq, ◌==◌,
  request,
}
use paylink.Compliance.Model.{Metadata, ActivityEventRow, ComplianceDb, State}
use paylink.Compliance.Risk.{Settings, evaluate, handle}
use paylink.Compliance.Kyc.{CallbackResult, KycProvider, create_session, apply_callback}

pub data Call : Type 0 where
  evaluating :
      (now : ℕ) (user_id action : String) (amount : Option ℤ) (currency : String)
      (geo_country registered_country context : Option String)
      → Call
  delivering :
      (now : ℕ) (name : String) (user_id : Option String) (amount : Option ℤ)
      (currency : Option String)
      → Call
  starting : (provider : KycProvider) (user_id : String) (tier_requested : ℕ) → Call
  calling_back : (now : ℕ) (provider : KycProvider) (body : Metadata) → Call

module _ (w : Settings) (encrypt : String → String) where
  unfoldable pub serve : Call → State → State
  serve (evaluating now user_id action amount currency geo_country registered_country context) s =
      (request
        (evaluate w now user_id action amount currency geo_country registered_country context) s).1
  serve (delivering now name user_id amount currency) s =
      (request (handle now name user_id amount currency) s).1
  serve (starting provider user_id tier_requested) s =
      (request (create_session encrypt provider user_id tier_requested) s).1
  serve (calling_back now provider body) s =
      (request (apply_callback w encrypt now provider body) s).1

  unfoldable pub serve_all : List Call → State → State
  serve_all [] s = s
  serve_all (call ∷ calls) s = serve_all calls (serve call s)

abbrev pub no_compliance : ComplianceDb
no_compliance = record {
  kyc_records = [];
  risk_scores = [];
  flags = [];
  activity_events = [];
  compliance_events = [];
}

abbrev pub new_service : State
new_service = record { stored = no_compliance; working = no_compliance; published = [] }

-- The tier that a callback grants to a user, 0 where it grants none.
abbrev pub tier_from : String → Option CallbackResult → ℕ
tier_from user_id none = 0
tier_from user_id (some result) =
    if result.passed then if result.user_id == user_id then result.tier_granted else 0 else 0

unfoldable pub grant : String → Call → ℕ
grant user_id (calling_back now provider body) = tier_from user_id (provider.parse_callback body)
grant user_id (evaluating _ _ _ _ _ _ _ _) = 0
grant user_id (delivering _ _ _ _ _) = 0
grant user_id (starting _ _ _) = 0

-- The highest tier that the callbacks granted to a user.
unfoldable pub granted : String → List Call → ℕ
granted user_id [] = 0
granted user_id (call ∷ calls) = max (grant user_id call) (granted user_id calls)

abbrev pub payment_row :
    ℕ → String → Option String → Option ℤ → Option String → List ActivityEventRow
payment_row now name none amount currency = []
payment_row now name (some user_id) amount currency =
    if name == "payment.initiated"
    then record {
      user_id = user_id;
      action = "payment.initiated";
      amount = amount;
      currency = currency;
      occurred_at = now;
    }
      ∷ []
    else []

unfoldable pub payment : Call → List ActivityEventRow
payment (delivering now name user_id amount currency) = payment_row now name user_id amount currency
payment (evaluating _ _ _ _ _ _ _ _) = []
payment (starting _ _ _) = []
payment (calling_back _ _ _) = []

-- The payments that the calls delivered, in their order.
unfoldable pub payments : List Call → List ActivityEventRow
payments [] = []
payments (call ∷ calls) = payment call ++ payments calls
