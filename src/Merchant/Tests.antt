-- ===== src/Merchant/Tests.antt =====
-- The merchants of linkmint-backend/merchant-onboarding on concrete calls, and the theorems about
-- them at these calls.
use paylink.Prelude.{lookup, insert, ◌≡◌, refl, true, false, ◌&&◌, none, some, List, [], ◌∷◌, ◌++◌}
use paylink.Merchant.Status.{active, approve, AccessClaims, role_in}
use paylink.Merchant.Service.{
  Settings, unready, decide, get_for_member, onboard, onboarded_org, has_verified_account,
  has_contract,
}
use paylink.Merchant.Records.{
  accept_contract, add_bank_account, valid_account_details, text_length, handle,
  verify_bank_account,
}
use paylink.Merchant.Standing.{says_active, says_rejected, status_under}
use paylink.Merchant.Calls.{
  Call, onboarding, deciding, adding_account, verifying_account, accepting, delivering, serve,
  serve_all, new_service, serve_all-ready, serve_all-rejected,
}

abbrev settings : Settings
settings = record {
  allowed_countries = "KE" ∷ [];
  require_verified_bank_for_active = true;
  require_contract_for_active = true;
}

abbrev owner : AccessClaims
owner = record { user_id = "u-1"; roles = record { org_id = "o-1"; role = "owner" } ∷ [] }

-- The first approval comes before the account is verified.
abbrev first_calls : List Call
first_calls =
    onboarding "m-1" owner "o-1" "Shop" none "KE" "company"
    ∷ adding_account (λ details. details) "b-1" owner "m-1" "mpesa" "400200" "KES"
    ∷ accepting owner "m-1" "v1" true
    ∷ deciding 5 "m-1" approve none
    ∷ []

abbrev approved_calls : List Call
approved_calls =
    verifying_account 6 owner "m-1" "b-1"
    ∷ delivering 7 "compliance.kyb.passed" (some "m-1") none
    ∷ []

abbrev rejecting_calls : List Call
rejecting_calls = first_calls ++ delivering 8 "compliance.kyb.failed" (some "m-1") none ∷ []

statuses :
    (says_active (status_under "m-1" (serve_all settings first_calls new_service).stored) ≡ false)
    × (status_under "m-1" (serve_all settings (first_calls ++ approved_calls) new_service).stored
        ≡ some active)
unfolding serve_all serve lookup decide accept_contract get_for_member add_bank_account onboard
    role_in onboarded_org insert valid_account_details text_length has_verified_account handle
    verify_bank_account has_contract
statuses = (refl, refl)

was_rejected :
    says_rejected (status_under "m-1" (serve_all settings rejecting_calls new_service).stored)
    ≡ true
unfolding serve_all serve lookup decide accept_contract get_for_member add_bank_account onboard
    role_in onboarded_org insert valid_account_details text_length has_verified_account handle
    verify_bank_account has_contract
was_rejected = refl

serve_all-ready_example :
    let d = (serve_all settings (first_calls ++ approved_calls) new_service).stored in
    says_active (status_under "m-1" d) && unready settings "m-1" d ≡ false
serve_all-ready_example = serve_all-ready settings (first_calls ++ approved_calls) "m-1"

serve_all-rejected_example :
    says_rejected (
      status_under "m-1"
        (serve_all settings approved_calls (serve_all settings rejecting_calls new_service)).stored)
    ≡ true
serve_all-rejected_example =
    serve_all-rejected settings rejecting_calls approved_calls "m-1" was_rejected
