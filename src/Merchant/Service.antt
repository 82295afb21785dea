-- ===== src/Merchant/Service.antt =====
-- linkmint-backend/merchant-onboarding/app/domain: merchants_service.py, bank_accounts_service.py and
-- contracts_service.py, with the queries of app/db/repositories.py and the consumer of
-- app/events/consumer.py. A country and an account's details come stripped, a country in capitals;
-- the cipher of account details is a parameter. The primary keys and the unique organization refuse a
-- second row. Merchant rows are fetched by their identifier.
use paylink.Prelude.{
  ℕ, ⊤, String, Bool, false, not, ◌&&◌, ◌||◌, Option, none, some, List, [], ◌∷◌, ◌++◌, Exec, pure,
  or_raise, raise_if, ◌>>=◌, ◌>>◌, ◌==◌, string_eq, Table, lookup, insert, any, Session, commit,
  publish, write, query, is_some,
}
use paylink.Merchant.Status.{
  MerchantStatus, pending_verification, active, rejected, suspended, ReviewDecision, can_transition,
  target_for, is_active, is_verified, AccessClaims, org_role, is_admin_role, one_of, merchant_types,
  fee_tiers, MerchantRow, BankAccountRow, ContractRow, MerchantEvent, merchant_onboarded,
  fee_tier_changed, merchant_decided, MerchantDb,
}

pub data MerchantError : Type 0 where
  org_not_found forbidden merchant_not_found invalid_payload unsupported_country already_onboarded
        invalid_transition invalid_account bank_account_not_found integrity_error :
      MerchantError

abbrev pub State : Type 0
State = Session MerchantDb MerchantEvent

abbrev pub Method : Type 0 → Type 0
Method A = Exec MerchantError State A

pub record Settings : Type 0 where
  pub allowed_countries : List String
  pub require_verified_bank_for_active : Bool
  pub require_contract_for_active : Bool

-- the outbox row, the commit, and the event to the publisher
abbrev pub emit : MerchantEvent → Method ⊤
emit event = do write (λ d. record d { events = d.events ++ event ∷ [] }); commit; publish event

abbrev pub save : MerchantRow → Method ⊤
save row = write (λ d. record d { merchants = insert row.merchant_id row d.merchants })

abbrev pub save_account : BankAccountRow → Method ⊤
save_account row =
    write (λ d. record d { bank_accounts = insert row.bank_account_id row d.bank_accounts })

-- `get_merchant_by_org`, as a test
unfoldable pub onboarded_org : String → Table String MerchantRow → Bool
onboarded_org org_id [] = false
onboarded_org org_id (entry ∷ t) = (entry.1.org_id == org_id) || onboarded_org org_id t

-- `get_for_member`
unfoldable pub get_for_member : AccessClaims → String → Method MerchantRow
get_for_member principal merchant_id = do
  row ← or_raise (← query (λ d. lookup merchant_id d.merchants)) merchant_not_found
  raise_if (not (is_some (org_role principal row.org_id))) merchant_not_found
  pure row

abbrev pub new_merchant :
    (fresh org_id business_name : String) (registration_no : Option String)
    (country merchant_type : String)
    → MerchantRow
new_merchant fresh org_id business_name registration_no country merchant_type = record {
  merchant_id = fresh;
  org_id = org_id;
  business_name = business_name;
  registration_no = registration_no;
  country = country;
  type = merchant_type;
  status = pending_verification;
  fee_tier = "standard";
  onboarded_at = none;
  suspended_at = none;
  suspended_reason = none;
}

-- `fresh` is the value of `uuid.uuid4()`
unfoldable pub onboard :
    Settings
    → (fresh : String) → AccessClaims
    → (org_id business_name : String) (registration_no : Option String)
      (country merchant_type : String)
    → Method MerchantRow
onboard settings fresh principal org_id business_name registration_no country merchant_type = do
  raise_if (not (is_some (org_role principal org_id))) org_not_found
  raise_if (not (one_of merchant_types merchant_type)) invalid_payload
  raise_if (not (one_of settings.allowed_countries country)) unsupported_country
  raise_if (← query (λ d. onboarded_org org_id d.merchants)) already_onboarded
  raise_if (← query (λ d. is_some (lookup fresh d.merchants))) integrity_error
  let row = new_merchant fresh org_id business_name registration_no country merchant_type
  save row
  emit (merchant_onboarded fresh org_id country merchant_type)
  pure row

unfoldable pub set_fee_tier : AccessClaims → (merchant_id tier : String) → Method MerchantRow
unfolding get_for_member
set_fee_tier principal merchant_id tier = do
  row ← get_for_member principal merchant_id
  role ← or_raise (org_role principal row.org_id) org_not_found
  raise_if (not (is_admin_role role)) forbidden
  raise_if (not (one_of fee_tiers tier)) invalid_payload
  let row' = record row { fee_tier = tier }
  save row'
  emit (fee_tier_changed row.merchant_id tier)
  pure row'

-- `count_verified_bank_accounts` and `count_contracts`, as tests that the count is not 0
unfoldable pub has_verified_account : String → Table String BankAccountRow → Bool
has_verified_account merchant_id [] = false
has_verified_account merchant_id (entry ∷ t) =
    (entry.1.merchant_id == merchant_id) && is_verified entry.1.status
    || has_verified_account merchant_id t

unfoldable pub has_contract : String → List ContractRow → Bool
has_contract merchant_id contracts = any (λ c. c.merchant_id == merchant_id) contracts

-- whether a precondition of activation fails
abbrev pub unready : Settings → String → MerchantDb → Bool
unready settings merchant_id d =
    settings.require_verified_bank_for_active
      && not (has_verified_account merchant_id d.bank_accounts)
    || settings.require_contract_for_active && not (has_contract merchant_id d.contracts)

abbrev pub or_else : Option ℕ → ℕ → Option ℕ
or_else none now = some now
or_else (some t) now = some t

-- the assignments of `decide`, field by field
abbrev pub onboarded_when : ℕ → MerchantStatus → Option ℕ → Option ℕ
onboarded_when now active old = or_else old now
onboarded_when now _ old = old

abbrev pub suspended_when : ℕ → MerchantStatus → Option ℕ → Option ℕ
suspended_when now active old = none
suspended_when now suspended old = some now
suspended_when now _ old = old

abbrev pub suspended_why : MerchantStatus → Option String → Option String → Option String
suspended_why active reason old = none
suspended_why suspended reason old = reason
suspended_why rejected reason old = reason
suspended_why _ reason old = old

abbrev pub decided : ℕ → MerchantStatus → Option String → MerchantRow → MerchantRow
decided now target reason row = record row {
  status = target;
  onboarded_at = onboarded_when now target row.onboarded_at;
  suspended_at = suspended_when now target row.suspended_at;
  suspended_reason = suspended_why target reason row.suspended_reason;
}

unfoldable pub decide :
    Settings
    → (now : ℕ) (merchant_id : String) (decision : ReviewDecision) (reason : Option String)
    → Method MerchantRow
decide settings now merchant_id decision reason = do
  row ← or_raise (← query (λ d. lookup merchant_id d.merchants)) merchant_not_found
  let target = target_for decision
  raise_if (not (can_transition row.status target)) invalid_transition
  missing ← query (unready settings merchant_id)
  raise_if (is_active target && missing) invalid_transition
  let row' = decided now target reason row
  save row'
  emit (merchant_decided row.merchant_id target decision reason)
  pure row'
