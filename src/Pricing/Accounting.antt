-- ===== src/Pricing/Accounting.antt =====
-- The invoicing of linkmint-backend/fee-pricing-service under any sequence of its calls.
use paylink.Prelude.{
  ℕ, suc, ◌≤◌, String, Bool, true, Option, none, some, List, [], ◌∷◌, ◌++◌, All, nat_eq, string_eq,
  ◌==◌, ◌≡◌, inl, inr, refl, sym, ◌∙◌, subst, arith, Bool-cases, Option-cases, Result-cases, ok,
  request,
}
use paylink.Pricing.Rates.{PricingDb, State, Moment}
use paylink.Pricing.Invoicing.{
  has_invoice, is_period, same_source, insert_accrual, new_accrual, record_accrual,
  unbilled_accruals, group_rows, bill_groups, generate_for_period, sweep, period_of,
}
use paylink.Pricing.Weights.{Row}
use paylink.Pricing.Books.{Books, Books-add}
use paylink.Pricing.Grouping.{group_rows-AreBillable}
use paylink.Pricing.Billing.{
  Held, find_accrual, Stays, Stays-trans, Moves, Bills, bill_groups-Bills,
}

pub data Call : Type 0 where
  accruing :
      (merchant_id : String) (amount : ℕ) (currency source_ref : String) (occurred_at : Moment)
      (quote_id : Option String)
      → Call
  generating : (period : String) (merchant_id : Option String) → Call
  sweeping : (now : Moment) → Call

module _ (precedes : String → String → Bool) (ledger_posting_enabled : Bool)
    (fresh : ℕ → String) where
  unfoldable pub serve : Call → State → State
  serve (accruing merchant_id amount currency source_ref occurred_at quote_id) s =
      (request (record_accrual merchant_id amount currency source_ref occurred_at quote_id) s).1
  serve (generating period merchant_id) s =
      (request (generate_for_period precedes ledger_posting_enabled fresh period merchant_id) s).1
  serve (sweeping now) s = (request (sweep precedes ledger_posting_enabled fresh now) s).1

  unfoldable pub serve_all : List Call → State → State
  serve_all [] s = s
  serve_all (call ∷ calls) s = serve_all calls (serve call s)

-- a service with any tiers, fees, rates and quotes, and nothing accrued
abbrev pub opened : PricingDb → State
opened d =
    let d0 : PricingDb = record d { accruals = []; next_accrual = 1; invoices = [] } in
    record { stored = d0; working = d0; published = [] }

opened-Held : (d : PricingDb) → Held (opened d).stored
opened-Held d = record { distinct = tt; below = tt; booked = tt; known = tt }

stays_put : (d : PricingDb) → Stays d d
stays_put d id r found has = (found, has)

find_accrual-append :
    (id : ℕ) (r : Row) (old new : List Row)
    → find_accrual id old ≡ some r
    → find_accrual id (old ++ new) ≡ some r
unfolding find_accrual
find_accrual-append id r [] new found = absurd (ground (arith, found))
find_accrual-append id r (x ∷ old) new found = elim (Bool-cases (x.id == id)) [
  | inl e ↦ ground (arith, e, found)
  | inr e ↦ ground (arith, e, find_accrual-append id r old new (ground (arith, e, found)))
]

below_more :
    (n : ℕ) (rows : List Row) → All (λ r. suc r.id ≤ n) rows → All (λ r. suc r.id ≤ suc n) rows
below_more n [] h = tt
below_more n (r ∷ rows) h = ((omega (arith, h.0)), below_more n rows h.1)

module _ (precedes : String → String → Bool) (ledger_posting_enabled : Bool)
    (fresh : ℕ → String) where
  accruing-Moves :
      (merchant_id : String) (amount : ℕ) (currency source_ref : String) (occurred_at : Moment)
      (quote_id : Option String) (s : State)
      → Held s.stored
      → Moves s.stored
          (request
            (record_accrual merchant_id amount currency source_ref occurred_at quote_id)
            s).1.stored
  unfolding record_accrual insert_accrual
  accruing-Moves merchant_id amount currency source_ref occurred_at quote_id s held =
      let d = s.stored in
      let row = new_accrual merchant_id amount currency source_ref occurred_at quote_id in
      elim (Option-cases (same_source merchant_id source_ref d.accruals)) [
        | inr (old, e) ↦ rw e (record {
          held = record {
            distinct = held.distinct;
            below = below_more d.next_accrual d.accruals held.below;
            booked = held.booked;
            known = held.known;
          };
          stays = stays_put d;
        })
        | inl e ↦ rw e (record {
          held =
              Books-add d.accruals d.next_accrual d.invoices (record row { id = d.next_accrual })
                refl refl held;
          stays = λ id r found has. (find_accrual-append id r d.accruals _ found, has);
        })
      ]

  generating-Moves :
      (period : String) (merchant_id : Option String) (s : State)
      → Held s.stored
      → Moves s.stored
          (request
            (generate_for_period precedes ledger_posting_enabled fresh period merchant_id)
            s).1.stored
  unfolding generate_for_period
  generating-Moves period merchant_id s held =
      let run = generate_for_period precedes ledger_posting_enabled fresh period merchant_id in
      let same : Moves s.stored s.stored = record { held = held; stays = stays_put s.stored } in
      let s0 : State = record s { working = s.stored } in
      let groups = group_rows [] (unbilled_accruals precedes period merchant_id s.stored) in
      let bills =
        bill_groups-Bills ledger_posting_enabled fresh period groups s0 held
          (group_rows-AreBillable precedes period merchant_id s.stored held.distinct) in
      let t = (bill_groups ledger_posting_enabled fresh period groups s0).1 in
      elim (Bool-cases (is_period period)) [
        | inr a ↦
            let ran : (request run s).1.stored ≡ s.stored = ground (arith, a) in
            subst (Moves s.stored) (sym ran) same
        | inl a ↦
            elim (Result-cases (bill_groups ledger_posting_enabled fresh period groups s0).0) [
              | inl (e, b) ↦
                  let ran : (request run s).1.stored ≡ t.stored = ground (arith, a, b) in
                  subst (Moves s.stored) (sym (ran ∙ bills.0)) same
              | inr (x, b) ↦
                  let ran : (request run s).1.stored ≡ t.working = ground (arith, a, b) in
                  let more : Bills s0 (ok x, t) = subst (λ r. Bills s0 (r, t)) b bills in
                  subst (Moves s.stored) (sym ran) more.1
            ]
      ]

  serve-Moves :
      (call : Call) (s : State)
      → Held s.stored
      → Moves s.stored (serve precedes ledger_posting_enabled fresh call s).stored
  unfolding serve sweep
  serve-Moves (accruing merchant_id amount currency source_ref occurred_at quote_id) s held =
      accruing-Moves merchant_id amount currency source_ref occurred_at quote_id s held
  serve-Moves (generating period merchant_id) s held = generating-Moves period merchant_id s held
  serve-Moves (sweeping now) s held = generating-Moves (period_of now) none s held

  serve_all-Moves :
      (calls : List Call) (s : State)
      → Held s.stored
      → Moves s.stored (serve_all precedes ledger_posting_enabled fresh calls s).stored
  unfolding serve_all
  serve_all-Moves [] s held = record { held = held; stays = stays_put s.stored }
  serve_all-Moves (call ∷ calls) s held =
      let u = serve precedes ledger_posting_enabled fresh call s in
      let one = serve-Moves call s held in
      let rest = serve_all-Moves calls u one.held in
      record {
        held = rest.held;
        stays =
            Stays-trans s.stored u.stored
              (serve_all precedes ledger_posting_enabled fresh calls u).stored one.stays rest.stays;
      }

  -- After any calls on a service with nothing accrued, no two accruals have one identifier, each
  -- invoice's fee and count of lines are those of the accruals that it is stamped on, these are its
  -- merchant's, of its period and in its currency, and each stamp is that of an invoice.
  pub serve_all-Books :
      (calls : List Call) (d : PricingDb)
      → let t = (serve_all precedes ledger_posting_enabled fresh calls (opened d)).stored in
        Books t.accruals t.next_accrual t.invoices
  serve_all-Books calls d = (serve_all-Moves calls (opened d) (opened-Held d)).held

  -- After any calls on a service with nothing accrued, an accrual whose merchant has an invoice for
  -- its period stays as it is under all later calls: if it is not billed by then, it never will be.
  pub serve_all-stranded :
      (calls later : List Call) (d : PricingDb) (id : ℕ) (r : Row)
      → let s = serve_all precedes ledger_posting_enabled fresh calls (opened d) in
        find_accrual id s.stored.accruals ≡ some r
        → has_invoice r.merchant_id r.period s.stored ≡ true
        → find_accrual id (serve_all precedes ledger_posting_enabled fresh later s).stored.accruals
          ≡ some r
  serve_all-stranded calls later d id r found has =
      let s = serve_all precedes ledger_posting_enabled fresh calls (opened d) in
      let held = (serve_all-Moves calls (opened d) (opened-Held d)).held in
      ((serve_all-Moves later s held).stays id r found has).0
