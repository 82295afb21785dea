-- ===== src/Merchant/Records.antt =====
-- The bank accounts and contracts of a merchant, and the consumer of decisions, of
-- linkmint-backend/merchant-onboarding: app/domain/bank_accounts_service.py,
-- app/domain/contracts_service.py and app/events/consumer.py. An account's details come stripped and
-- its currency stripped and in capitals.
use paylink.Prelude.{
  ℕ, suc, ltb, leb, ◌&&◌, ⊤, String, Bool, not, Option, none, some, [], ◌∷◌, ◌++◌, pure, or_raise,
  raise_if, ◌>>=◌, ◌>>◌, if◌then◌else◌, ◌==◌, string_eq, lookup, write, query, is_some,
}
use paylink.Merchant.Status.{
  ReviewDecision, approve, reject, suspend, reinstate, pending_verify, verified, is_pending,
  AccessClaims, one_of, rails, BankAccountRow, ContractRow, bank_account_added,
  bank_account_verified, contract_accepted,
}
use paylink.Merchant.Service.{
  invalid_payload, invalid_account, bank_account_not_found, invalid_transition, integrity_error,
  Method, Settings, emit, save_account, get_for_member, decide,
}

-- `len` of a text
unfoldable pub text_length : String → ℕ
text_length String.[] = 0
text_length (String.◌∷◌ c s) = suc (text_length s)

-- `_valid_account_details`
unfoldable pub valid_account_details : String → Bool
valid_account_details s = ltb 0 (text_length s) && leb (text_length s) 256

abbrev pub new_account : (fresh merchant_id rail account_ref currency : String) → BankAccountRow
new_account fresh merchant_id rail account_ref currency = record {
  bank_account_id = fresh;
  merchant_id = merchant_id;
  rail = rail;
  account_ref = account_ref;
  currency = currency;
  status = pending_verify;
  verified_at = none;
}

-- `encrypt` is `cipher.encrypt`
unfoldable pub add_bank_account :
    (encrypt : String → String) (fresh : String) (principal : AccessClaims)
    (merchant_id rail account_details currency : String)
    → Method BankAccountRow
add_bank_account encrypt fresh principal merchant_id rail account_details currency = do
  get_for_member principal merchant_id
  raise_if (not (one_of rails rail)) invalid_payload
  raise_if (not (valid_account_details account_details)) invalid_account
  raise_if (← query (λ d. is_some (lookup fresh d.bank_accounts))) integrity_error
  let account = new_account fresh merchant_id rail (encrypt account_details) currency
  save_account account
  emit (bank_account_added merchant_id fresh rail currency)
  pure account

unfoldable pub verify_bank_account :
    (now : ℕ) (principal : AccessClaims) (merchant_id bank_account_id : String)
    → Method BankAccountRow
verify_bank_account now principal merchant_id bank_account_id = do
  get_for_member principal merchant_id
  account ← or_raise (← query (λ d. lookup bank_account_id d.bank_accounts)) bank_account_not_found
  raise_if (not (account.merchant_id == merchant_id)) bank_account_not_found
  raise_if (not (is_pending account.status)) invalid_transition
  let account' = record account { status = verified; verified_at = some now }
  save_account account'
  emit (bank_account_verified merchant_id account.bank_account_id)
  pure account'

unfoldable pub accept_contract :
    (principal : AccessClaims) (merchant_id version : String) (accepted : Bool) → Method ContractRow
accept_contract principal merchant_id version accepted = do
  get_for_member principal merchant_id
  raise_if (not accepted) invalid_payload
  let contract : ContractRow = record {
    merchant_id = merchant_id;
    version = version;
    accepted_by = principal.user_id;
  }
  write (λ d. record d { contracts = d.contracts ++ contract ∷ [] })
  emit (contract_accepted merchant_id version principal.user_id)
  pure contract

-- `_DECISION_BY_EVENT`
abbrev pub decision_by_event : String → Option ReviewDecision
decision_by_event name =
    if name == "compliance.kyb.passed"
    then some approve
    else if name == "compliance.kyb.failed"
    then some reject
    else if name == "admin.override.suspend"
    then some suspend
    else if name == "admin.override.reinstate"
    then some reinstate
    else none

-- The identifier of the payload is `none` where it is missing, empty or no UUID.
unfoldable pub handle :
    (settings : Settings) (now : ℕ) (name : String) (merchant_id reason : Option String) → Method ⊤
handle settings now name merchant_id reason = elim (decision_by_event name) [
  | none ↦ pure tt
  | some decision ↦ elim merchant_id [
    | none ↦ pure tt
    | some id ↦ do decide settings now id decision reason; pure tt
  ]
]
