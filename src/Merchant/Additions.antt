-- ===== src/Merchant/Additions.antt =====
-- The calls of app/domain/bank_accounts_service.py, app/domain/contracts_service.py and
-- app/events/consumer.py of linkmint-backend/merchant-onboarding, one by one.
use paylink.Prelude.{
  ℕ, String, inl, inr, refl, Bool, not, Option, none, some, [], ◌∷◌, ◌++◌, arith, ◌==◌, string_eq,
  lookup, Bool-cases, Option-cases, Result-cases, subst, All-lookup, request, is_some,
}
use paylink.Merchant.Status.{
  verified, is_pending, AccessClaims, one_of, rails, ContractRow, bank_account_added,
  bank_account_verified, contract_accepted, MerchantDb,
}
use paylink.Merchant.Service.{Settings, State, decide}
use paylink.Merchant.Records.{
  new_account, add_bank_account, verify_bank_account, accept_contract, handle, decision_by_event,
  valid_account_details,
}
use paylink.Merchant.Lifecycle.{adding_account, verifying_account, accepting}
use paylink.Merchant.Course.{AccountUnder, IsKeyed, Course, renewed, quiet, stepped, puts_account}
use paylink.Merchant.Requests.{member-cases, decide-Course}

pub add_bank_account-Course :
    (settings : Settings) (encrypt : String → String) (fresh : String) (principal : AccessClaims)
    (merchant_id rail account_details currency : String) (s : State)
    → IsKeyed s.stored
    → Course settings s
        (request
          (add_bank_account encrypt fresh principal merchant_id rail account_details currency)
          s).1
unfolding add_bank_account
add_bank_account-Course settings encrypt fresh principal i rail details currency s k =
    elim (member-cases principal i (renewed s)) [
      | inl e ↦ quiet k (ground (arith, e))
      | inr (row, found, e) ↦ elim (Bool-cases (not (one_of rails rail))) [
        | inl a ↦ quiet k (ground (arith, e, a))
        | inr a ↦ elim (Bool-cases (not (valid_account_details details))) [
          | inl b ↦ quiet k (ground (arith, e, a, b))
          | inr b ↦ elim (Bool-cases (is_some (lookup fresh s.stored.bank_accounts))) [
            | inl c ↦ quiet k (ground (arith, e, a, b, c))
            | inr c ↦
                let account = new_account fresh i rail (encrypt details) currency in
                let event = bank_account_added i fresh rail currency in
                puts_account k account event (adding_account account event (ground (arith, c)) refl)
                  (ground (arith, e, a, b, c))
          ]
        ]
      ]
    ]

pub verify_bank_account-Course :
    (settings : Settings) (now : ℕ) (principal : AccessClaims)
    (merchant_id bank_account_id : String) (s : State)
    → IsKeyed s.stored
    → Course settings s
        (request (verify_bank_account now principal merchant_id bank_account_id) s).1
unfolding verify_bank_account
verify_bank_account-Course settings now principal i j s k =
    elim (member-cases principal i (renewed s)) [
      | inl e ↦ quiet k (ground (arith, e))
      | inr (row, found, e) ↦ elim (Option-cases (lookup j s.stored.bank_accounts)) [
        | inl a ↦ quiet k (ground (arith, e, a))
        | inr (account, a) ↦ elim (Bool-cases (not (account.merchant_id == i))) [
          | inl b ↦ quiet k (ground (arith, e, a, b))
          | inr b ↦ elim (Bool-cases (not (is_pending account.status))) [
            | inl c ↦ quiet k (ground (arith, e, a, b, c))
            | inr c ↦
                let id = All-lookup AccountUnder j account s.stored.bank_accounts k.accounts a in
                let event = bank_account_verified i account.bank_account_id in
                puts_account k (record account { status = verified; verified_at = some now }) event
                  (verifying_account account now event (ground (arith, id, a)) (ground (arith, c))
                    refl)
                  (ground (arith, e, a, b, c))
          ]
        ]
      ]
    ]

pub accept_contract-Course :
    (settings : Settings) (principal : AccessClaims) (merchant_id version : String)
    (accepted : Bool) (s : State)
    → IsKeyed s.stored
    → Course settings s (request (accept_contract principal merchant_id version accepted) s).1
unfolding accept_contract
accept_contract-Course settings principal i version accepted s k =
    elim (member-cases principal i (renewed s)) [
      | inl e ↦ quiet k (ground (arith, e))
      | inr (row, found, e) ↦ elim (Bool-cases (not accepted)) [
        | inl a ↦ quiet k (ground (arith, e, a))
        | inr a ↦
            let contract : ContractRow = record {
              merchant_id = i;
              version = version;
              accepted_by = principal.user_id;
            } in
            let event = contract_accepted i version principal.user_id in
            let d : MerchantDb = record s.stored {
              contracts = s.stored.contracts ++ contract ∷ [];
              events = s.stored.events ++ event ∷ [];
            } in
            stepped d event (record { merchants = k.merchants; accounts = k.accounts }) refl
              (accepting contract event refl) (ground (arith, e, a))
      ]
    ]

pub handle-Course :
    (settings : Settings) (now : ℕ) (name : String) (merchant_id reason : Option String) (s : State)
    → IsKeyed s.stored
    → Course settings s (request (handle settings now name merchant_id reason) s).1
unfolding handle
handle-Course settings now name none reason s k = elim (Option-cases (decision_by_event name)) [
  | inl e ↦ quiet k (ground (arith, e))
  | inr (decision, e) ↦ quiet k (ground (arith, e))
]
handle-Course settings now name (some i) reason s k = elim (Option-cases (decision_by_event name)) [
  | inl e ↦ quiet k (ground (arith, e))
  | inr (decision, e) ↦
      subst (Course settings s)
        (elim (Result-cases (decide settings now i decision reason (renewed s)).0) [
          | inl (x, r) ↦ ground (arith, e, r)
          | inr (x, r) ↦ ground (arith, e, r)
        ])
        (decide-Course settings now i decision reason s k)
]
