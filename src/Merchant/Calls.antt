-- ===== src/Merchant/Calls.antt =====
-- linkmint-backend/merchant-onboarding under any sequence of calls of its services and its consumer.
use paylink.Prelude.{
  lookup, ℕ, String, ◌≡◌, refl, Bool, true, false, ◌&&◌, Option, List, [], ◌∷◌, ◌++◌, request, ◌∙◌,
  sym, ap, append_assoc, append-nil,
}
use paylink.Merchant.Status.{ReviewDecision, AccessClaims, MerchantDb}
use paylink.Merchant.Service.{Settings, State, onboard, set_fee_tier, decide, unready}
use paylink.Merchant.Records.{add_bank_account, verify_bank_account, accept_contract, handle}
use paylink.Merchant.Lifecycle.{Steps-trans, here}
use paylink.Merchant.Standing.{
  says_active, says_rejected, status_under, Steps-IsStanding, Steps-rejected,
}
use paylink.Merchant.Course.{IsKeyed, Course}
use paylink.Merchant.Requests.{onboard-Course, set_fee_tier-Course, decide-Course}
use paylink.Merchant.Additions.{
  add_bank_account-Course, verify_bank_account-Course, accept_contract-Course, handle-Course,
}

pub data Call : Type 0 where
  onboarding :
      (fresh : String) (principal : AccessClaims) (org_id business_name : String)
      (registration_no : Option String) (country merchant_type : String)
      → Call
  retiering : (principal : AccessClaims) (merchant_id tier : String) → Call
  deciding :
      (now : ℕ) (merchant_id : String) (decision : ReviewDecision) (reason : Option String) → Call
  adding_account :
      (encrypt : String → String) (fresh : String) (principal : AccessClaims)
      (merchant_id rail account_details currency : String)
      → Call
  verifying_account :
      (now : ℕ) (principal : AccessClaims) (merchant_id bank_account_id : String) → Call
  accepting : (principal : AccessClaims) (merchant_id version : String) (accepted : Bool) → Call
  delivering : (now : ℕ) (name : String) (merchant_id reason : Option String) → Call

unfoldable pub serve : Settings → Call → State → State
serve w (onboarding fresh p org name reg country type) s =
    (request (onboard w fresh p org name reg country type) s).1
serve w (retiering p i tier) s = (request (set_fee_tier p i tier) s).1
serve w (deciding now i decision reason) s = (request (decide w now i decision reason) s).1
serve w (adding_account encrypt fresh p i rail details currency) s =
    (request (add_bank_account encrypt fresh p i rail details currency) s).1
serve w (verifying_account now p i j) s = (request (verify_bank_account now p i j) s).1
serve w (accepting p i version accepted) s = (request (accept_contract p i version accepted) s).1
serve w (delivering now name i reason) s = (request (handle w now name i reason) s).1

unfoldable pub serve_all : Settings → List Call → State → State
serve_all w [] s = s
serve_all w (call ∷ calls) s = serve_all w calls (serve w call s)

abbrev pub no_merchants : MerchantDb
no_merchants = record { merchants = []; bank_accounts = []; contracts = []; events = [] }

abbrev pub new_service : State
new_service = record { stored = no_merchants; working = no_merchants; published = [] }

serve-Course :
    (w : Settings) (call : Call) (s : State) → IsKeyed s.stored → Course w s (serve w call s)
unfolding serve
serve-Course w (onboarding fresh p org name reg country type) s k =
    onboard-Course w fresh p org name reg country type s k
serve-Course w (retiering p i tier) s k = set_fee_tier-Course w p i tier s k
serve-Course w (deciding now i decision reason) s k = decide-Course w now i decision reason s k
serve-Course w (adding_account encrypt fresh p i rail details currency) s k =
    add_bank_account-Course w encrypt fresh p i rail details currency s k
serve-Course w (verifying_account now p i j) s k = verify_bank_account-Course w now p i j s k
serve-Course w (accepting p i version accepted) s k =
    accept_contract-Course w p i version accepted s k
serve-Course w (delivering now name i reason) s k = handle-Course w now name i reason s k

serve_all-Course :
    (w : Settings) (calls : List Call) (s : State)
    → IsKeyed s.stored
    → Course w s (serve_all w calls s)
unfolding serve_all
serve_all-Course w [] s k = record {
  reported = [];
  steps = here;
  keyed = k;
  stored_events = sym (append-nil s.stored.events);
  echoed = sym (append-nil s.published);
}
serve_all-Course w (call ∷ calls) s k =
    let first = serve-Course w call s k in
    let rest = serve_all-Course w calls (serve w call s) first.keyed in
    record {
      reported = first.reported ++ rest.reported;
      steps = Steps-trans first.steps rest.steps;
      keyed = rest.keyed;
      stored_events =
          rest.stored_events
          ∙ ap (λ es. es ++ rest.reported) first.stored_events
          ∙ append_assoc s.stored.events first.reported rest.reported;
      echoed =
          rest.echoed
          ∙ ap (λ es. es ++ rest.reported) first.echoed
          ∙ append_assoc s.published first.reported rest.reported;
    }

new-Course :
    (w : Settings) (calls : List Call) → Course w new_service (serve_all w calls new_service)
new-Course w calls = serve_all-Course w calls new_service (record { merchants = tt; accounts = tt })

none_active :
    (w : Settings) (k : String)
    → says_active (status_under k no_merchants) && unready w k no_merchants ≡ false
unfolding lookup
none_active w k = refl

-- After any calls on a new database under the same settings, no merchant is active for which a
-- precondition that they ask for, a verified bank account or an accepted contract, is missing.
pub serve_all-ready :
    (w : Settings) (calls : List Call) (k : String)
    → let d = (serve_all w calls new_service).stored in
      says_active (status_under k d) && unready w k d ≡ false
serve_all-ready w calls k = Steps-IsStanding (new-Course w calls).steps (none_active w) k

-- A merchant that was rejected by some calls on a new database stays rejected under any further ones.
pub serve_all-rejected :
    (w : Settings) (before calls : List Call) (k : String)
    → says_rejected (status_under k (serve_all w before new_service).stored) ≡ true
    → says_rejected (status_under k (serve_all w calls (serve_all w before new_service)).stored)
      ≡ true
serve_all-rejected w before calls k =
    Steps-rejected k
      (serve_all-Course w calls (serve_all w before new_service) (new-Course w before).keyed).steps

-- After any calls on a new database, what was published is what the outbox holds, in its order.
serve_all-logged :
    (w : Settings) (calls : List Call)
    → (serve_all w calls new_service).published ≡ (serve_all w calls new_service).stored.events
serve_all-logged w calls = (new-Course w calls).echoed ∙ sym (new-Course w calls).stored_events
