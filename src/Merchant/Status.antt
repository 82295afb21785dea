-- ===== src/Merchant/Status.antt =====
-- linkmint-backend/merchant-onboarding: app/domain/models.py, app/domain/state_machine.py,
-- app/domain/rbac.py and the rows of app/db/models.py.
use paylink.Prelude.{
  ℕ, String, Bool, true, false, ◌||◌, Option, none, some, List, [], ◌∷◌, if◌then◌else◌, ◌==◌,
  string_eq, Table, any,
}

pub data MerchantStatus : Type 0 where
  draft pending_verification active rejected suspended : MerchantStatus

pub data ReviewDecision : Type 0 where
  approve reject suspend reinstate : ReviewDecision

pub data BankAccountStatus : Type 0 where
  pending_verify verified revoked : BankAccountStatus

-- `can_transition`, by `_EDGES`
abbrev pub can_transition : MerchantStatus → MerchantStatus → Bool
can_transition draft pending_verification = true
can_transition pending_verification active = true
can_transition pending_verification rejected = true
can_transition pending_verification suspended = true
can_transition active suspended = true
can_transition suspended active = true
can_transition suspended rejected = true
can_transition _ _ = false

-- `target_for`, by `_DECISION_TARGET`
abbrev pub target_for : ReviewDecision → MerchantStatus
target_for approve = active
target_for reject = rejected
target_for suspend = suspended
target_for reinstate = active

abbrev pub is_active : MerchantStatus → Bool
is_active active = true
is_active _ = false

abbrev pub is_rejected : MerchantStatus → Bool
is_rejected rejected = true
is_rejected _ = false

abbrev pub is_verified : BankAccountStatus → Bool
is_verified verified = true
is_verified _ = false

abbrev pub is_pending : BankAccountStatus → Bool
is_pending pending_verify = true
is_pending _ = false

pub record OrgRole : Type 0 where
  pub org_id : String
  pub role : String

pub record AccessClaims : Type 0 where
  pub user_id : String
  pub roles : List OrgRole

-- `org_role`: the first role in the organization
unfoldable pub role_in : List OrgRole → String → Option String
role_in [] org_id = none
role_in (r ∷ rs) org_id = if r.org_id == org_id then some r.role else role_in rs org_id

abbrev pub org_role : AccessClaims → String → Option String
org_role principal org_id = role_in principal.roles org_id

-- `_ADMIN_ROLES`
abbrev pub is_admin_role : String → Bool
is_admin_role role = (role == "owner") || (role == "admin")

-- a text that is one of a fixed set: `MerchantType`, `FeeTier`, `Rail`
abbrev pub one_of : List String → String → Bool
one_of names text = any (λ n. n == text) names

abbrev pub merchant_types : List String
merchant_types = "individual" ∷ "company" ∷ "nonprofit" ∷ []

abbrev pub fee_tiers : List String
fee_tiers = "standard" ∷ "startup" ∷ "enterprise" ∷ []

abbrev pub rails : List String
rails = "mpesa" ∷ "swift" ∷ "sepa" ∷ "ach" ∷ "crypto" ∷ []

pub record MerchantRow : Type 0 where
  pub merchant_id : String
  pub org_id : String
  pub business_name : String
  pub registration_no : Option String
  pub country : String
  pub type : String
  pub status : MerchantStatus
  pub fee_tier : String
  pub onboarded_at : Option ℕ
  pub suspended_at : Option ℕ
  pub suspended_reason : Option String

pub record BankAccountRow : Type 0 where
  pub bank_account_id : String
  pub merchant_id : String
  pub rail : String
  pub account_ref : String
  pub currency : String
  pub status : BankAccountStatus
  pub verified_at : Option ℕ

pub record ContractRow : Type 0 where
  pub merchant_id : String
  pub version : String
  pub accepted_by : String

-- an event with its payload
pub data MerchantEvent : Type 0 where
  merchant_onboarded : (merchant_id org_id country type : String) → MerchantEvent
  fee_tier_changed : (merchant_id tier : String) → MerchantEvent
  merchant_decided :
      (merchant_id : String) (status : MerchantStatus) (decision : ReviewDecision)
      (reason : Option String)
      → MerchantEvent
  bank_account_added : (merchant_id bank_account_id rail currency : String) → MerchantEvent
  bank_account_verified : (merchant_id bank_account_id : String) → MerchantEvent
  contract_accepted : (merchant_id version accepted_by : String) → MerchantEvent

pub record MerchantDb : Type 0 where
  pub merchants : Table String MerchantRow
  pub bank_accounts : Table String BankAccountRow
  pub contracts : List ContractRow
  pub events : List MerchantEvent
