-- ===== src/Merchant/Course.antt =====
-- What a call of linkmint-backend/merchant-onboarding does: one that raises changes nothing, one that
-- succeeds makes at most one change of the lifecycle, stored and published.
use paylink.Prelude.{
  String, ◌≡◌, refl, List, [], ◌∷◌, ◌++◌, string_eq, insert, subst, sym, append-nil, All,
  All-insert,
}
use paylink.Merchant.Status.{MerchantRow, BankAccountRow, MerchantEvent, MerchantDb}
use paylink.Merchant.Service.{Settings, State}
use paylink.Merchant.Lifecycle.{Step, Steps, here, next}

abbrev pub MerchantUnder : String × MerchantRow → Type 0
MerchantUnder entry = entry.1.merchant_id ≡ entry.0

abbrev pub AccountUnder : String × BankAccountRow → Type 0
AccountUnder entry = entry.1.bank_account_id ≡ entry.0

pub record IsKeyed (d : MerchantDb) : Type 0 where
  pub merchants : All MerchantUnder d.merchants
  pub accounts : All AccountUnder d.bank_accounts

pub record Course (settings : Settings) (s s' : State) : Type 0 where
  pub reported : List MerchantEvent
  pub steps : Steps settings s.stored s'.stored
  pub keyed : IsKeyed s'.stored
  pub stored_events : s'.stored.events ≡ s.stored.events ++ reported
  pub echoed : s'.published ≡ s.published ++ reported

-- the state after one stored and published change
abbrev pub after : MerchantDb → MerchantEvent → State → State
after d event s = record { stored = d; working = d; published = s.published ++ event ∷ [] }

abbrev pub renewed : State → State
renewed s = record s { working = s.stored }

module _ {settings : Settings} {s : State} (keyed : IsKeyed s.stored) where
  pub quiet : {m : State} → m ≡ renewed s → Course settings s m
  quiet e = subst (Course settings s) (sym e) (record {
    reported = [];
    steps = here;
    keyed = keyed;
    stored_events = sym (append-nil s.stored.events);
    echoed = sym (append-nil s.published);
  })

pub stepped :
    {settings : Settings} {s m : State} (d : MerchantDb) (event : MerchantEvent)
    → IsKeyed d
    → d.events ≡ s.stored.events ++ event ∷ []
    → Step settings s.stored d event
    → m ≡ after d event s
    → Course settings s m
stepped {settings} {s} d event keyed logged step e = subst (Course settings s) (sym e) (record {
  reported = event ∷ [];
  steps = next here step;
  keyed = keyed;
  stored_events = logged;
  echoed = refl;
})

-- the tables after a merchant's row, or an account's, was written with its event
abbrev pub with_merchant : MerchantRow → MerchantEvent → MerchantDb → MerchantDb
with_merchant row event d = record d {
  merchants = insert row.merchant_id row d.merchants;
  events = d.events ++ event ∷ [];
}

abbrev pub with_account : BankAccountRow → MerchantEvent → MerchantDb → MerchantDb
with_account account event d = record d {
  bank_accounts = insert account.bank_account_id account d.bank_accounts;
  events = d.events ++ event ∷ [];
}

module _ {settings : Settings} {s m : State} (k : IsKeyed s.stored) where
  pub puts_merchant :
      (row : MerchantRow) (event : MerchantEvent)
      → Step settings s.stored (with_merchant row event s.stored) event
      → m ≡ after (with_merchant row event s.stored) event s
      → Course settings s m
  puts_merchant row event =
      stepped (with_merchant row event s.stored) event
        (record {
          merchants =
              All-insert MerchantUnder row.merchant_id row s.stored.merchants refl k.merchants;
          accounts = k.accounts;
        })
        refl

  pub puts_account :
      (account : BankAccountRow) (event : MerchantEvent)
      → Step settings s.stored (with_account account event s.stored) event
      → m ≡ after (with_account account event s.stored) event s
      → Course settings s m
  puts_account account event =
      stepped (with_account account event s.stored) event
        (record {
          merchants = k.merchants;
          accounts =
              All-insert AccountUnder account.bank_account_id account s.stored.bank_accounts refl
                k.accounts;
        })
        refl
