-- ===== src/Pricing/Billing.antt =====
-- What a round of billing in linkmint-backend/fee-pricing-service does to the books.
use paylink.Prelude.{
  ℕ, ◌+◌, ◌≤◌, String, Bool, true, false, if◌then◌else◌, Option, none, some, List, [], ◌∷◌, ◌++◌,
  map, any, any-append, All, length, lookup, nat_eq, string_eq, ◌==◌, eq_iff_at, ◌≡◌, ◌⊎◌, inl, inr,
  refl, sym, ◌∙◌, subst, arith, Bool-cases, Option-cases, Result, Result-cases, ok, err,
}
use paylink.Pricing.Quote.{PricingError, integrity_error}
use paylink.Pricing.Rates.{
  PricingDb, State, PlatformFeeInvoiceRow, platform_fee_issued, event, fee_posted,
}
use paylink.Pricing.Invoicing.{
  Group, GeneratedInvoice, has_id, mark, has_invoice, is_for_period, invoice_row, insert_invoice,
  bill, bill_or_skip, bill_groups, counted,
}
use paylink.Pricing.Weights.{Row, when, sum_of, count, sum_of-has_id}
use paylink.Pricing.Stamps.{misfit, may_take, All-IsOnly-mark}
use paylink.Pricing.Books.{Books, Books-bill}
use paylink.Pricing.Grouping.{total_count, GroupIn, AreBillable}

abbrev pub Held : PricingDb → Type 0
Held d = Books d.accruals d.next_accrual d.invoices

-- the first row with an identifier
unfoldable pub find_accrual : ℕ → List Row → Option Row
find_accrual id [] = none
find_accrual id (r ∷ rows) = if r.id == id then some r else find_accrual id rows

-- An accrual whose merchant has an invoice for its period stays as it is.
abbrev pub Stays : PricingDb → PricingDb → Type 0
Stays d d' =
    (id : ℕ) (r : Row)
    → find_accrual id d.accruals ≡ some r
    → has_invoice r.merchant_id r.period d ≡ true
    → (find_accrual id d'.accruals ≡ some r) × (has_invoice r.merchant_id r.period d' ≡ true)

pub record Moves (d d' : PricingDb) : Type 0 where
  pub held : Held d'
  pub stays : Stays d d'

abbrev pub Stays-trans : (a b c : PricingDb) → Stays a b → Stays b c → Stays a c
Stays-trans a b c f g id r found has = let (found', has') = f id r found has in g id r found' has'

GroupIn-mark :
    (g : List Row) (id : String) (t : List Row) (groups : List Group)
    → ((n : ℕ) → count n g + total_count n groups ≤ 1)
    → All (GroupIn t) groups
    → All (GroupIn (map (mark g id) t)) groups
GroupIn-mark g id t [] apart h = tt
GroupIn-mark g id t (x ∷ groups) apart h = (
  All-IsOnly-mark g id t x.rows (λ n. omega (arith, apart n)) h.0,
  GroupIn-mark g id t groups (λ n. omega (arith, apart n)) h.1,
)

find_accrual-mark :
    (g : List Row) (invoice_id m p c : String) (id : ℕ) (r : Row) (t : List Row)
    → sum_of (λ x. when (has_id g x) (misfit m p c x)) t ≡ 0
    → may_take m p c r ≡ false
    → find_accrual id t ≡ some r
    → find_accrual id (map (mark g invoice_id) t) ≡ some r
unfolding find_accrual
find_accrual-mark g invoice_id m p c id r [] z refused found = absurd (ground (arith, found))
find_accrual-mark g invoice_id m p c id r (x ∷ t) z refused found = elim (Bool-cases (x.id == id)) [
  | inl e ↦
      let same : x ≡ r = ground (arith, e, found) in
      elim (Bool-cases (has_id g x)) [
        | inr f ↦ ground (arith, e, f, same)
        | inl f ↦
            let refuses : may_take m p c x ≡ false =
              subst (λ y. may_take m p c y ≡ false) (sym same) refused in
            absurd (ground (arith, f, z, refuses))
      ]
  | inr e ↦
      let rest =
        find_accrual-mark g invoice_id m p c id r t (ground (arith, z)) refused
          (ground (arith, e, found)) in
      elim (Bool-cases (has_id g x)) [
        | inr f ↦ ground (arith, e, f, rest)
        | inl f ↦ ground (arith, e, f, rest)
      ]
]

-- A group that is billed.
pub record Billed (period : String) (g : Group) (d d' : PricingDb) : Type 0 where
  pub id : String
  pub unknown : lookup id d.invoices ≡ none
  pub first : has_invoice g.merchant_id period d ≡ false
  pub marked : d'.accruals ≡ map (mark g.rows id) d.accruals
  pub entered : d'.invoices ≡ d.invoices ++ (id, invoice_row period g) ∷ []
  pub sequence : d'.next_accrual ≡ d.next_accrual

abbrev billed_state : String → PlatformFeeInvoiceRow → Group → State → State
billed_state id row g s = record s {
  working = record s.working {
    invoices = s.working.invoices ++ (id, row) ∷ [];
    accruals = map (mark g.rows id) s.working.accruals;
    events = s.working.events ++ platform_fee_issued id row ∷ [];
  };
  published = s.published ++ event (platform_fee_issued id row) ∷ [];
}

module _ (ledger_posting_enabled : Bool) (fresh : ℕ → String) (period : String) where
  bill_or_skip-cases :
      (g : Group) (s : State)
      → ((e : PricingError) × (bill_or_skip ledger_posting_enabled fresh period g s ≡ (err e, s)))
        ⊎ (bill_or_skip ledger_posting_enabled fresh period g s ≡ (ok none, s))
        ⊎ ((i : GeneratedInvoice) × (t : State) × (bill_or_skip ledger_posting_enabled fresh period
                g s
              ≡ (ok (some i), t))
            × (t.stored ≡ s.stored)
            × Billed period g s.working t.working)
  unfolding bill_or_skip bill insert_invoice
  bill_or_skip-cases g s = elim (Bool-cases (has_invoice g.merchant_id period s.working)) [
    | inl a ↦ inr (inl (ground (arith, a)))
    | inr a ↦ elim (Option-cases (lookup (fresh (length s.working.invoices)) s.working.invoices)) [
      | inr (old, b) ↦ inl (integrity_error, (ground (arith, a, b)))
      | inl b ↦
          let id = fresh (length s.working.invoices) in
          let row = invoice_row period g in
          let i : GeneratedInvoice = record {
            invoice_id = id;
            merchant_id = g.merchant_id;
            currency = g.currency;
            total_fee = row.total_fee;
            line_count = row.line_count;
          } in
          let entry : Billed period g s.working (billed_state id row g s).working = record {
            id = id;
            unknown = b;
            first = a;
            marked = refl;
            entered = refl;
            sequence = refl;
          } in
          elim (Bool-cases ledger_posting_enabled) [
            | inl c ↦ inr (
                inr (
                  i,
                  record (billed_state id row g s) {
                    published =
                        (s.published ++ fee_posted id row ∷ [])
                        ++ event (platform_fee_issued id row) ∷ [];
                  },
                  (ground (arith, a, b, c)),
                  refl,
                  entry,
                ))
            | inr c ↦ inr (inr (i, billed_state id row g s, (ground (arith, a, b, c)), refl, entry))
          ]
    ]
  ]

has_invoice-append :
    (m p : String) (old new : List (String × PlatformFeeInvoiceRow))
    → any (is_for_period m p) old ≡ true
    → any (is_for_period m p) (old ++ new) ≡ true
has_invoice-append m p old new h = ground (arith, h, any-append (is_for_period m p) old new)

refuses :
    (m p c : String) (r : Row) (d : PricingDb)
    → has_invoice r.merchant_id r.period d ≡ true
    → has_invoice m p d ≡ false
    → may_take m p c r ≡ false
refuses m p c r d has first = elim (Bool-cases (may_take m p c r)) [
  | inr e ↦ e
  | inl e ↦
      let same : r.merchant_id ≡ m = ground (arith, e, eq_iff_at r.merchant_id m) in
      let at : r.period ≡ p = ground (arith, e, eq_iff_at r.period p) in
      let taken : has_invoice r.merchant_id r.period d ≡ false = rw (same, at) first in
      absurd (ground (arith, has, taken))
]

module _ (period : String) (g : Group) (groups : List Group) (d d' : PricingDb) where
  -- A billed group leaves the books right,
  Billed-Moves :
      Held d → AreBillable period d.accruals (g ∷ groups) → Billed period g d d' → Moves d d'
  Billed-Moves held able billed =
      let once : (n : ℕ) → count n g.rows ≤ 1 = λ n. omega (arith, able.once n) in
      let zero =
        sum_of-has_id (misfit g.merchant_id period g.currency) d.accruals g.rows able.ins.0 once
        ∙ able.fits.0 in
      record {
        held =
            rw (billed.marked, billed.entered, billed.sequence)
              (Books-bill period g billed.id d.accruals d.next_accrual d.invoices held
                billed.unknown able.ins.0 once able.fits.0);
        stays = λ id r found has. (
          rw billed.marked (
              find_accrual-mark g.rows billed.id g.merchant_id period g.currency id r d.accruals
                zero (refuses g.merchant_id period g.currency r d has billed.first) found),
          rw billed.entered (has_invoice-append r.merchant_id r.period d.invoices _ has),
        );
      }

  -- and the other groups to be billed.
  Billed-AreBillable :
      AreBillable period d.accruals (g ∷ groups)
      → Billed period g d d'
      → AreBillable period d'.accruals groups
  Billed-AreBillable able billed = record {
    ins = rw billed.marked (GroupIn-mark g.rows billed.id d.accruals groups able.once able.ins.1);
    fits = able.fits.1;
    once = λ n. omega (arith, able.once n);
  }

-- What a run leaves, when it has an answer: its changes are moves of the books.
abbrev pub Bills {ℓ} : {A : Type ℓ} → State → Result PricingError A × State → Type 0
Bills s (r, t) = (t.stored ≡ s.stored) × elim r [ err e ↦ Unit | ok _ ↦ Moves s.working t.working ]

module _ (ledger_posting_enabled : Bool) (fresh : ℕ → String) (period : String) where
  abbrev rounds : List Group → State → Result PricingError (List GeneratedInvoice × ℕ) × State
  rounds groups s = bill_groups ledger_posting_enabled fresh period groups s

  pub bill_groups-Bills :
      (groups : List Group) (s : State)
      → Held s.working
      → AreBillable period s.working.accruals groups
      → Bills s (bill_groups ledger_posting_enabled fresh period groups s)
  unfolding bill_groups
  bill_groups-Bills [] s held able =
      (refl, record { held = held; stays = λ id r found has. (found, has) })
  bill_groups-Bills (g ∷ groups) s held able =
      elim (bill_or_skip-cases ledger_posting_enabled fresh period g s) [
        | inl (e, a) ↦
            let run : rounds (g ∷ groups) s ≡ (err e, s) = ground (arith, a) in
            subst (Bills s) (sym run) (refl, tt)
        | inr (inl a) ↦
            let rest = bill_groups-Bills groups s held (record {
              ins = able.ins.1;
              fits = able.fits.1;
              once = λ n. omega (arith, able.once n);
            }) in
            let u = (rounds groups s).1 in
            elim (Result-cases (rounds groups s).0) [
              | inl (e, b) ↦
                  let run : rounds (g ∷ groups) s ≡ (err e, u) = ground (arith, a, b) in
                  subst (Bills s) (sym run) (rest.0, tt)
              | inr (x, b) ↦
                  let run : rounds (g ∷ groups) s
                      ≡ (ok (counted ledger_posting_enabled fresh period none x), u) =
                    ground (arith, a, b) in
                  let more : Bills s (ok x, u) = subst (λ r. Bills s (r, u)) b rest in
                  subst (Bills s) (sym run) more
            ]
        | inr (inr (i, t, a, kept, billed)) ↦
            let move = Billed-Moves period g groups s.working t.working held able billed in
            let rest =
              bill_groups-Bills groups t move.held
                (Billed-AreBillable period g groups s.working t.working able billed) in
            let u = (rounds groups t).1 in
            elim (Result-cases (rounds groups t).0) [
              | inl (e, b) ↦
                  let run : rounds (g ∷ groups) s ≡ (err e, u) = ground (arith, a, b) in
                  subst (Bills s) (sym run) (rest.0 ∙ kept, tt)
              | inr (x, b) ↦
                  let run : rounds (g ∷ groups) s
                      ≡ (ok (counted ledger_posting_enabled fresh period (some i) x), u) =
                    ground (arith, a, b) in
                  let more : Bills t (ok x, u) = subst (λ r. Bills t (r, u)) b rest in
                  subst (Bills s) (sym run) (
                    more.0 ∙ kept,
                    record {
                      held = more.1.held;
                      stays = Stays-trans s.working t.working u.working move.stays more.1.stays;
                    },
                  )
            ]
      ]
