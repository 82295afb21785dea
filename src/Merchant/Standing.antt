-- ===== src/Merchant/Standing.antt =====
-- What the merchants of linkmint-backend/merchant-onboarding keep to, over the changes of the
-- lifecycle: an active one has met the preconditions, and a rejected one stays rejected.
use paylink.Prelude.{
  String, ◌≡◌, inl, inr, refl, Bool, true, false, ◌&&◌, Option, none, some, [], ◌∷◌, arith,
  if◌then◌else◌, ◌==◌, string_eq, eq_iff_at, Table, lookup, insert, lookup-insert, Bool-cases,
  subst, sym, any-append,
}
use paylink.Merchant.Status.{
  MerchantStatus, verified, can_transition, is_active, is_rejected, is_verified, MerchantRow,
  BankAccountRow, MerchantEvent, MerchantDb,
}
use paylink.Merchant.Service.{Settings, has_verified_account, has_contract, unready, decided}
use paylink.Merchant.Lifecycle.{
  Step, onboarding, retiering, deciding, adding_account, verifying_account, accepting, Steps, here,
  next,
}

-- whether the account under an identifier is verified
abbrev verified_under : String → Table String BankAccountRow → Bool
verified_under id t = elim (lookup id t) [
  | none ↦ false
  | some account ↦ is_verified account.status
]

has_verified_account-insert :
    (k id : String) (account : BankAccountRow) (t : Table String BankAccountRow)
    → verified_under id t ≡ false
    → has_verified_account k t ≡ true
    → has_verified_account k (insert id account t) ≡ true
unfolding has_verified_account insert lookup
has_verified_account-insert k id account [] h v = ground (arith, v)
has_verified_account-insert k id account (entry ∷ t) h v =
    ground (arith, h, v, has_verified_account-insert k id account t)

-- The preconditions of activation, once met, stay met.
Step-ready :
    {settings : Settings} {d d' : MerchantDb} {e : MerchantEvent} (k : String)
    → Step settings d d' e
    → unready settings k d ≡ false
    → unready settings k d' ≡ false
unfolding has_contract
Step-ready k (onboarding row e a s eq) h = rw eq h
Step-ready k (retiering row tier e a eq) h = rw eq h
Step-ready k (deciding row now target reason e a b c eq) h = rw eq h
Step-ready {d} k (adding_account account e a eq) h = rw eq (
    ground
      (arith, h, a, has_verified_account-insert k account.bank_account_id account d.bank_accounts))
Step-ready {d} k (verifying_account account now e a p eq) h = rw eq (
    ground (
      arith,
      h,
      a,
      p,
      has_verified_account-insert k account.bank_account_id
          (record account { status = verified; verified_at = some now }) d.bank_accounts,
    ))
Step-ready {d} k (accepting contract e eq) h =
    rw eq (ground (arith, h, any-append (λ c. c.merchant_id == k) d.contracts (contract ∷ [])))

abbrev pub status_under : String → MerchantDb → Option MerchantStatus
status_under k d = elim (lookup k d.merchants) [ none ↦ none | some row ↦ some row.status ]

-- whether a status is the active one
abbrev pub says_active : Option MerchantStatus → Bool
says_active none = false
says_active (some status) = is_active status

-- No merchant is active that does not meet the preconditions.
abbrev pub IsStanding : Settings → MerchantDb → Type 0
IsStanding settings d =
    (k : String) → says_active (status_under k d) && unready settings k d ≡ false

abbrev status_of : Option MerchantRow → Option MerchantStatus
status_of none = none
status_of (some row) = some row.status

status_under-insert :
    (k key : String) (row : MerchantRow) (d d' : MerchantDb)
    → d'.merchants ≡ insert key row d.merchants
    → status_under k d' ≡ (if key == k then some row.status else status_under k d)
status_under-insert k key row d d' eq = ground (arith, eq, lookup-insert key k row d.merchants)

-- A merchant that is not active and does not meet the preconditions is not activated.
Step-inactive :
    {settings : Settings} {d d' : MerchantDb} {e : MerchantEvent} (k : String)
    → Step settings d d' e
    → says_active (status_under k d) ≡ false
    → unready settings k d ≡ true
    → says_active (status_under k d') ≡ false
Step-inactive {d} {d'} k (onboarding row e a s eq) h u =
    ground (arith, s, h, status_under-insert k row.merchant_id row d d' (rw eq refl))
Step-inactive {d} {d'} k (retiering row tier e a eq) h u = ground (
  arith,
  h,
  a,
  status_under-insert k row.merchant_id (record row { fee_tier = tier }) d d' (rw eq refl),
  eq_iff_at row.merchant_id k,
)
Step-inactive {settings} {d} {d'} k (deciding row now target reason e a b c eq) h u =
    let row' = decided now target reason row in
    let put = status_under-insert k row.merchant_id row' d d' (rw eq refl) in
    elim (Bool-cases (row.merchant_id == k)) [
      | inr x ↦ ground (arith, put, x, h)
      | inl x ↦
          let same = (eq_iff_at row.merchant_id k).0 x in
          let idle : is_active target ≡ false =
            ground (arith, c, subst (λ i. unready settings i d ≡ true) (sym same) u) in
          ground (arith, put, x, idle)
    ]
Step-inactive k (adding_account account e a eq) h u = rw eq h
Step-inactive k (verifying_account account now e a p eq) h u = rw eq h
Step-inactive k (accepting contract e eq) h u = rw eq h

Step-IsStanding :
    {settings : Settings} {d d' : MerchantDb} {e : MerchantEvent}
    → Step settings d d' e
    → IsStanding settings d
    → IsStanding settings d'
Step-IsStanding {settings} {d} step h k = elim (Bool-cases (unready settings k d)) [
  | inr ready ↦ ground (arith, Step-ready k step ready)
  | inl missing ↦ ground (arith, Step-inactive k step, missing, h k)
]

pub Steps-IsStanding :
    {settings : Settings} {d d' : MerchantDb}
    → Steps settings d d'
    → IsStanding settings d
    → IsStanding settings d'
Steps-IsStanding here h = h
Steps-IsStanding (next steps step) h = Step-IsStanding step (Steps-IsStanding steps h)

-- whether a status is the rejected one
abbrev pub says_rejected : Option MerchantStatus → Bool
says_rejected none = false
says_rejected (some status) = is_rejected status

rejected_end :
    (status target : MerchantStatus)
    → can_transition status target ≡ true
    → is_rejected status ≡ false
rejected_end status target h = ground arith

Step-rejected :
    {settings : Settings} {d d' : MerchantDb} {e : MerchantEvent} (k : String)
    → Step settings d d' e
    → says_rejected (status_under k d) ≡ true
    → says_rejected (status_under k d') ≡ true
Step-rejected {d = d} {d' = d'} k (onboarding row e a s eq) h = ground (
  arith,
  a,
  h,
  status_under-insert k row.merchant_id row d d' (rw eq refl),
  eq_iff_at row.merchant_id k,
)
Step-rejected {d = d} {d' = d'} k (retiering row tier e a eq) h = ground (
  arith,
  h,
  a,
  status_under-insert k row.merchant_id (record row { fee_tier = tier }) d d' (rw eq refl),
  eq_iff_at row.merchant_id k,
)
Step-rejected {d = d} {d' = d'} k (deciding row now target reason e a b c eq) h = ground (
  arith,
  h,
  a,
  rejected_end row.status target b,
  status_under-insert k row.merchant_id (decided now target reason row) d d' (rw eq refl),
  eq_iff_at row.merchant_id k,
)
Step-rejected k (adding_account account e a eq) h = rw eq h
Step-rejected k (verifying_account account now e a p eq) h = rw eq h
Step-rejected k (accepting contract e eq) h = rw eq h

pub Steps-rejected :
    {settings : Settings} {d d' : MerchantDb} (k : String)
    → Steps settings d d'
    → says_rejected (status_under k d) ≡ true
    → says_rejected (status_under k d') ≡ true
Steps-rejected k here h = h
Steps-rejected k (next steps step) h = Step-rejected k step (Steps-rejected k steps h)
