-- ===== src/Merchant/Lifecycle.antt =====
-- The changes that the calls of linkmint-backend/merchant-onboarding make to the tables, as an
-- abstract state machine: no account loses its verification, no contract is dropped, and a merchant
-- is active only after the preconditions held.
use paylink.Prelude.{
  ℕ, String, ◌≡◌, true, false, ◌&&◌, Option, none, some, [], ◌∷◌, ◌++◌, string_eq, lookup, insert,
}
use paylink.Merchant.Status.{
  MerchantStatus, pending_verification, verified, can_transition, is_active, is_pending,
  MerchantRow, BankAccountRow, ContractRow, MerchantEvent, MerchantDb,
}
use paylink.Merchant.Service.{Settings, unready, decided}

-- the two preconditions, of which the settings may ask
abbrev pub IsReady : Settings → String → MerchantDb → Type 0
IsReady settings merchant_id d = unready settings merchant_id d ≡ false

pub data Step (settings : Settings) (d d' : MerchantDb) : MerchantEvent → Type 0 where
  onboarding :
      (row : MerchantRow) (event : MerchantEvent)
      → lookup row.merchant_id d.merchants ≡ none
      → row.status ≡ pending_verification
      → d' ≡ record d {
        merchants = insert row.merchant_id row d.merchants;
        events = d.events ++ event ∷ [];
      }
      → Step settings d d' event
  retiering :
      (row : MerchantRow) (tier : String) (event : MerchantEvent)
      → lookup row.merchant_id d.merchants ≡ some row
      → d' ≡ record d {
        merchants = insert row.merchant_id (record row { fee_tier = tier }) d.merchants;
        events = d.events ++ event ∷ [];
      }
      → Step settings d d' event
  deciding :
      (row : MerchantRow) (now : ℕ) (target : MerchantStatus) (reason : Option String)
      (event : MerchantEvent)
      → lookup row.merchant_id d.merchants ≡ some row
      → can_transition row.status target ≡ true
      → is_active target && unready settings row.merchant_id d ≡ false
      → d' ≡ record d {
        merchants = insert row.merchant_id (decided now target reason row) d.merchants;
        events = d.events ++ event ∷ [];
      }
      → Step settings d d' event
  adding_account :
      (account : BankAccountRow) (event : MerchantEvent)
      → lookup account.bank_account_id d.bank_accounts ≡ none
      → d' ≡ record d {
        bank_accounts = insert account.bank_account_id account d.bank_accounts;
        events = d.events ++ event ∷ [];
      }
      → Step settings d d' event
  verifying_account :
      (account : BankAccountRow) (now : ℕ) (event : MerchantEvent)
      → lookup account.bank_account_id d.bank_accounts ≡ some account
      → is_pending account.status ≡ true
      → d' ≡ record d {
        bank_accounts =
            insert account.bank_account_id
              (record account { status = verified; verified_at = some now })
              d.bank_accounts;
        events = d.events ++ event ∷ [];
      }
      → Step settings d d' event
  accepting :
      (contract : ContractRow) (event : MerchantEvent)
      → d' ≡ record d { contracts = d.contracts ++ contract ∷ []; events = d.events ++ event ∷ [] }
      → Step settings d d' event

pub data Steps (settings : Settings) (d : MerchantDb) : MerchantDb → Type 0 where
  here : Steps settings d d
  next :
      {d' d'' : MerchantDb} {event : MerchantEvent}
      → Steps settings d d'
      → Step settings d' d'' event
      → Steps settings d d''

pub Steps-trans :
    {settings : Settings} {c d e : MerchantDb}
    → Steps settings c d
    → Steps settings d e
    → Steps settings c e
Steps-trans s here = s
Steps-trans s (next t st) = next (Steps-trans s t) st
