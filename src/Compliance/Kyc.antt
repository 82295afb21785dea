-- ===== src/Compliance/Kyc.antt =====
-- linkmint-backend/compliance-risk/app/domain/kyc_service.py. A provider and the cipher are
-- parameters: what `start` and `parse_callback` return or raise, and what `encrypt` gives.
use paylink.Prelude.{
  ℕ, ◌+◌, ◌*◌, max, leb, String, Bool, true, false, not, ◌&&◌, ◌||◌, if◌then◌else◌, Option, none,
  some, List, [], ◌∷◌, map, string_eq, nat_eq, ◌==◌, ⊤, pure, raise_if, or_raise, ◌>>=◌, ◌>>◌,
  query, commit, publish,
}
use paylink.Compliance.Model.{
  FlagKind, FlagSeverity, Metadata, KycRecordRow, RiskScoreRow, FlagRow, invalid_tier,
  already_verified, provider_error, invalid_payload, compliance_not_found, kyc_passed, kyc_failed,
  Method, get_kyc_record, tier_of, upsert_kyc_record, add_event, latest_risk_score, count_flags,
  list_open_flags, redact,
}
use paylink.Compliance.Risk.{Settings}

pub record StartResult : Type 0 where
  pub session_id : String
  pub provider_url : String

pub record CallbackResult : Type 0 where
  pub user_id : String
  pub passed : Bool
  pub tier_granted : ℕ
  pub provider_ref : String
  pub metadata : Metadata

-- `start` raises `UpstreamError` where it returns nothing, and `parse_callback` one of the errors
-- for which the route answers that the payload is invalid.
pub record KycProvider : Type 0 where
  pub name : String
  pub start : (user_id : String) (tier : ℕ) → Option StartResult
  pub parse_callback : Metadata → Option CallbackResult

abbrev pub documents_of : Option KycRecordRow → Option Metadata
documents_of none = none
documents_of (some row) = row.documents

abbrev pub verified_of : Option KycRecordRow → Option ℕ
verified_of none = none
verified_of (some row) = row.verified_at

abbrev pub expiry_of : Option KycRecordRow → Option ℕ
expiry_of none = none
expiry_of (some row) = row.expires_at

abbrev pub ref_of : Option KycRecordRow → Option String
ref_of none = none
ref_of (some row) = row.provider_ref

-- the record that a session, a passed and a failed callback write
abbrev pub started_row :
    (encrypt : String → String) (provider : String)
    → StartResult
    → Option KycRecordRow
    → KycRecordRow
started_row encrypt provider started existing = record {
  tier = tier_of existing;
  provider = some provider;
  provider_ref = some (encrypt started.session_id);
  documents = documents_of existing;
  verified_at = verified_of existing;
  expires_at = expiry_of existing;
}

-- `redacted or …`, where an empty dict is false
abbrev pub or_documents : Metadata → Option Metadata → Option Metadata
or_documents [] documents = documents
or_documents (entry ∷ entries) documents = some (entry ∷ entries)

abbrev pub passed_row :
    (w : Settings) (encrypt : String → String) (now : ℕ) (provider : String)
    → CallbackResult
    → Option KycRecordRow
    → KycRecordRow
passed_row w encrypt now provider result existing = record {
  tier = max (tier_of existing) result.tier_granted;
  provider = some provider;
  provider_ref = some (encrypt result.provider_ref);
  documents = some (redact result.metadata);
  verified_at = some now;
  expires_at = some (now + 86400 * w.kyc_validity_days);
}

abbrev pub failed_row :
    (encrypt : String → String) (provider : String)
    → CallbackResult
    → Option KycRecordRow
    → KycRecordRow
failed_row encrypt provider result existing = record {
  tier = tier_of existing;
  provider = some provider;
  provider_ref =
      if result.provider_ref == "" then ref_of existing else some (encrypt result.provider_ref);
  documents = or_documents (redact result.metadata) (documents_of existing);
  verified_at = verified_of existing;
  expires_at = expiry_of existing;
}

unfoldable pub create_session :
    (encrypt : String → String) (provider : KycProvider) (user_id : String) (tier_requested : ℕ)
    → Method StartResult
create_session encrypt provider user_id tier_requested = do
  raise_if (not (tier_requested == 1 || tier_requested == 2)) invalid_tier
  existing ← query (get_kyc_record user_id)
  raise_if (leb tier_requested (tier_of existing)) already_verified
  started ← or_raise (provider.start user_id tier_requested) provider_error
  upsert_kyc_record user_id (started_row encrypt provider.name started existing)
  commit
  pure started

unfoldable pub callback_passed :
    (w : Settings) (encrypt : String → String) (now : ℕ) (provider : String)
    (result : CallbackResult) (existing : Option KycRecordRow)
    → Method ⊤
callback_passed w encrypt now provider result existing = do
  let row = passed_row w encrypt now provider result existing
  upsert_kyc_record result.user_id row
  add_event "user" result.user_id (kyc_passed result.user_id row.tier)
  commit
  publish (kyc_passed result.user_id row.tier)

unfoldable pub callback_failed :
    (encrypt : String → String) (provider : String) (result : CallbackResult)
    (existing : Option KycRecordRow)
    → Method ⊤
callback_failed encrypt provider result existing = do
  upsert_kyc_record result.user_id (failed_row encrypt provider result existing)
  add_event "user" result.user_id (kyc_failed result.user_id)
  commit
  publish (kyc_failed result.user_id)

unfoldable pub apply_callback :
    (w : Settings) (encrypt : String → String) (now : ℕ) (provider : KycProvider) (body : Metadata)
    → Method ⊤
unfolding callback_passed callback_failed
apply_callback w encrypt now provider body = do
  result ← or_raise (provider.parse_callback body) invalid_payload
  existing ← query (get_kyc_record result.user_id)
  if result.passed
      then callback_passed w encrypt now provider.name result existing
      else callback_failed encrypt provider.name result existing

pub record FlagView : Type 0 where
  pub kind : FlagKind
  pub severity : FlagSeverity
  pub raised_at : ℕ

pub record StatusView : Type 0 where
  pub user_id : String
  pub kyc_tier : ℕ
  pub risk_score : Option ℕ
  pub flags : List FlagView

abbrev pub flag_view : FlagRow → FlagView
flag_view f = record { kind = f.kind; severity = f.severity; raised_at = f.raised_at }

abbrev pub score_of : Option RiskScoreRow → Option ℕ
score_of none = none
score_of (some row) = some row.score

abbrev is_missing {ℓ} : {A : Type ℓ} → Option A → Bool
is_missing none = true
is_missing (some _) = false

unfoldable pub get_status : (user_id : String) → Method StatusView
get_status user_id = do
  record_row ← query (get_kyc_record user_id)
  latest ← query (latest_risk_score user_id)
  flags ← query (list_open_flags user_id)
  flag_count ← query (count_flags user_id)
  raise_if (is_missing record_row && flag_count == 0 && is_missing latest) compliance_not_found
  pure (record {
    user_id = user_id;
    kyc_tier = tier_of record_row;
    risk_score = score_of latest;
    flags = map flag_view flags;
  })
