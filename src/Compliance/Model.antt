-- ===== src/Compliance/Model.antt =====
-- The rows of linkmint-backend/compliance-risk/app/db/models.py, the queries of
-- app/db/repositories.py, the enums of app/domain/models.py and the events of
-- app/events/publisher.py. Times are seconds; the rows that the database numbers stand in the order
-- of their numbers. A payload is its fields, as the constructors of `Event` have them.
use paylink.Prelude.{
  ℕ, ◌+◌, ◌*◌, ℤ, pos, ◌+ℤ◌, String, Bool, true, false, ◌&&◌, if◌then◌else◌, Option, none, some,
  List, [], ◌∷◌, ◌++◌, length, select, Table, lookup, insert, string_eq, ◌==◌, leb, Session, Exec,
  ⊤, write, sort_by, any,
}
use paylink.Compliance.Engine.{Decision, or_nothing}

pub data FlagKind : Type 0 where
  sanctions velocity geo manual : FlagKind

pub data FlagSeverity : Type 0 where
  info warn block : FlagSeverity

-- the metadata of a provider: a value that is a scalar, or one that is nested
pub data MetaValue : Type 0 where
  scalar nested : (text : String) → MetaValue

abbrev pub Metadata : Type 0
Metadata = Table String MetaValue

pub record KycRecordRow : Type 0 where
  pub tier : ℕ
  pub provider : Option String
  pub provider_ref : Option String
  pub documents : Option Metadata
  pub verified_at : Option ℕ
  pub expires_at : Option ℕ

-- code and detail of each reason
abbrev pub ReasonsPayload : Type 0
ReasonsPayload = List (String × String)

pub record RiskScoreRow : Type 0 where
  pub user_id : String
  pub context : String
  pub score : ℕ
  pub decision : Decision
  pub reasons : ReasonsPayload
  pub evaluated_at : ℕ

pub record CheckPayload : Type 0 where
  pub user_id : String
  pub action : String
  pub decision : Decision
  pub score : ℕ
  pub reasons : ReasonsPayload

pub record FlagPayload : Type 0 where
  pub user_id : String
  pub kind : FlagKind
  pub severity : FlagSeverity
  pub action : String
  pub decision : Decision
  pub score : ℕ
  pub reasons : ReasonsPayload

pub record FlagRow : Type 0 where
  pub user_id : String
  pub kind : FlagKind
  pub severity : FlagSeverity
  pub payload : FlagPayload
  pub raised_at : ℕ
  pub resolved_at : Option ℕ

pub record ActivityEventRow : Type 0 where
  pub user_id : String
  pub action : String
  pub amount : Option ℤ
  pub currency : Option String
  pub occurred_at : ℕ

-- an event's name and payload
pub data Event : Type 0 where
  kyc_passed : (user_id : String) (tier : ℕ) → Event
  kyc_failed : (user_id : String) → Event
  check_passed check_failed : CheckPayload → Event
  flag_raised : FlagPayload → Event

pub record ComplianceEventRow : Type 0 where
  pub subject_type : String
  pub subject_id : String
  pub event : Event

pub record ComplianceDb : Type 0 where
  pub kyc_records : Table String KycRecordRow
  pub risk_scores : List RiskScoreRow
  pub flags : List FlagRow
  pub activity_events : List ActivityEventRow
  pub compliance_events : List ComplianceEventRow

pub data ComplianceError : Type 0 where
  invalid_tier already_verified provider_error invalid_payload compliance_not_found :
      ComplianceError

abbrev pub State : Type 0
State = Session ComplianceDb Event

abbrev pub Method : Type 0 → Type 0
Method A = Exec ComplianceError State A

abbrev pub get_kyc_record : String → ComplianceDb → Option KycRecordRow
get_kyc_record user_id d = lookup user_id d.kyc_records

-- the tier of a record, 0 where there is none
abbrev pub tier_of : Option KycRecordRow → ℕ
tier_of none = 0
tier_of (some record_row) = record_row.tier

unfoldable pub get_tier : String → ComplianceDb → ℕ
get_tier user_id d = tier_of (get_kyc_record user_id d)

abbrev pub upsert_kyc_record : String → KycRecordRow → Method ⊤
upsert_kyc_record user_id row =
    write (λ d. record d { kyc_records = insert user_id row d.kyc_records })

abbrev pub insert_risk_score : RiskScoreRow → Method ⊤
insert_risk_score row = write (λ d. record d { risk_scores = d.risk_scores ++ row ∷ [] })

abbrev pub insert_flag : FlagRow → Method ⊤
insert_flag row = write (λ d. record d { flags = d.flags ++ row ∷ [] })

abbrev pub insert_activity : ActivityEventRow → Method ⊤
insert_activity row = write (λ d. record d { activity_events = d.activity_events ++ row ∷ [] })

abbrev pub add_event : (subject_type subject_id : String) → Event → Method ⊤
add_event subject_type subject_id event = write (λ d. record d {
  compliance_events =
      d.compliance_events
      ++ record { subject_type = subject_type; subject_id = subject_id; event = event } ∷ [];
})

-- of the user, and not earlier than `hours` before `now`
unfoldable pub is_recent : (user_id : String) (now hours : ℕ) → ActivityEventRow → Bool
is_recent user_id now hours row = row.user_id == user_id && leb now (row.occurred_at + 3600 * hours)

unfoldable pub count_activity_since : (user_id : String) (now hours : ℕ) → ComplianceDb → ℕ
count_activity_since user_id now hours d =
    length (select (is_recent user_id now hours) d.activity_events)

-- `sum` leaves out a missing amount.
unfoldable pub total_amount : List ActivityEventRow → ℤ
total_amount [] = pos 0
total_amount (row ∷ rows) = or_nothing row.amount +ℤ total_amount rows

unfoldable pub sum_amount_since : (user_id : String) (now hours : ℕ) → ComplianceDb → ℤ
sum_amount_since user_id now hours d =
    total_amount (select (is_recent user_id now hours) d.activity_events)

-- The last of the scores that were made latest: a later row has the greater number.
unfoldable pub latest_of : Option RiskScoreRow → List RiskScoreRow → Option RiskScoreRow
latest_of latest [] = latest
latest_of latest (row ∷ rows) =
    latest_of
      (elim latest [
        | none ↦ some row
        | some other ↦ if leb other.evaluated_at row.evaluated_at then some row else some other
      ])
      rows

unfoldable pub latest_risk_score : String → ComplianceDb → Option RiskScoreRow
latest_risk_score user_id d = latest_of none (select (λ row. row.user_id == user_id) d.risk_scores)

unfoldable pub count_flags : String → ComplianceDb → ℕ
count_flags user_id d = length (select (λ row. row.user_id == user_id) d.flags)

abbrev pub is_open : FlagRow → Bool
is_open row = elim row.resolved_at [ none ↦ true | some time ↦ false ]

unfoldable pub list_open_flags : String → ComplianceDb → List FlagRow
list_open_flags user_id d =
    sort_by (λ a b. leb b.raised_at a.raised_at)
      (select (λ row. row.user_id == user_id && is_open row) d.flags)

-- `app/redaction.py`
abbrev pub allowed_keys : List String
allowed_keys =
    "session_id" ∷ "status" ∷ "reason_code" ∷ "decision" ∷ "document_type" ∷ "verification_level"
    ∷ "completed_at" ∷ "country" ∷ "tier" ∷ "provider" ∷ "check_id" ∷ []

abbrev pub is_scalar : MetaValue → Bool
is_scalar (scalar text) = true
is_scalar (nested text) = false

abbrev pub may_keep : String × MetaValue → Bool
may_keep entry = any (λ key. key == entry.0) allowed_keys && is_scalar entry.1

unfoldable pub redact : Metadata → Metadata
redact meta = select may_keep meta
