-- ===== src/PayLink/Lifecycle.antt =====
-- The lifecycle of a PayLink of linkmint-backend/paylink-service as an abstract state machine over
-- the tables: which changes a row may undergo, each with the events that report it.
use paylink.Prelude.{
  ℕ, String, ◌≡◌, ◌⊎◌, inl, inr, refl, true, false, none, some, List, [], ◌∷◌, ◌++◌, arith,
  if◌then◌else◌, ◌==◌, string_eq, eq_iff_at, lookup, insert, lookup-insert, Bool-cases, is_some,
  subst, sym, ◌∙◌,
}
use paylink.PayLink.Model.{
  created, pending, cancelled, expired, is_terminal, same_status, ChainPayLink, from_chain,
  PayLinkRow, PayLinkEvent, paylink_created, paylink_expired, paylink_cancelled, PayLinkDb,
}
use paylink.PayLink.Settle.{reconciled}

-- One change of a row, with its events. A settlement has the PayLink that the chain showed.
pub data Edge (row row' : PayLinkRow) : List PayLinkEvent → Type 0 where
  submitting :
      (tx_hash : String)
      → row.status ≡ created
      → row' ≡ record row { status = pending; chain_tx_hash = some tx_hash }
      → Edge row row' (paylink_created row.pl_id tx_hash ∷ [])
  settling :
      (now : ℕ) (chain : ChainPayLink)
      → is_terminal row.status ≡ false
      → is_some row.chain_tx_hash ≡ true
      → row' ≡ reconciled now row chain (from_chain now chain)
      → Edge row row' (
          if same_status (from_chain now chain) expired then paylink_expired row.pl_id ∷ [] else [])
  cancelling :
      (by : String)
      → is_terminal row.status ≡ false
      → row' ≡ record row { status = cancelled }
      → Edge row row' (paylink_cancelled row.pl_id by ∷ [])

pub data Step (d d' : PayLinkDb) : List PayLinkEvent → Type 0 where
  adding :
      (row : PayLinkRow) (event : PayLinkEvent)
      → lookup row.pl_id d.paylinks ≡ none
      → row.status ≡ created
      → row.chain_tx_hash ≡ none
      → row.verified_at ≡ none
      → d' ≡ record { paylinks = insert row.pl_id row d.paylinks; events = d.events ++ event ∷ [] }
      → Step d d' (event ∷ [])
  changing :
      (row row' : PayLinkRow) (events : List PayLinkEvent)
      → lookup row.pl_id d.paylinks ≡ some row
      → Edge row row' events
      → d' ≡ record { paylinks = insert row.pl_id row' d.paylinks; events = d.events ++ events }
      → Step d d' events

pub data Steps (d : PayLinkDb) : PayLinkDb → Type 0 where
  here : Steps d d
  next :
      {d' d'' : PayLinkDb} {events : List PayLinkEvent}
      → Steps d d'
      → Step d' d'' events
      → Steps d d''

pub Steps-trans : {c d e : PayLinkDb} → Steps c d → Steps d e → Steps c e
Steps-trans s here = s
Steps-trans s (next t st) = next (Steps-trans s t) st

-- A later state of the same PayLink: its parties, amount and expiry stay, and a final state, verified,
-- failed or cancelled, stays as it is.
pub record IsLater (row row' : PayLinkRow) : Type 0 where
  pub same_id : row'.pl_id ≡ row.pl_id
  pub same_creator : row'.creator_addr ≡ row.creator_addr
  pub same_receiver : row'.receiver_addr ≡ row.receiver_addr
  pub same_owner : row'.owner_addr ≡ row.owner_addr
  pub same_amount : row'.amount ≡ row.amount
  pub same_currency : row'.currency ≡ row.currency
  pub same_expiry : row'.expiry ≡ row.expiry
  pub final : (is_terminal row.status ≡ false) ⊎ (row' ≡ row)

IsLater-trans : {a b c : PayLinkRow} → IsLater a b → IsLater b c → IsLater a c
IsLater-trans p q = record {
  same_id = q.same_id ∙ p.same_id;
  same_creator = q.same_creator ∙ p.same_creator;
  same_receiver = q.same_receiver ∙ p.same_receiver;
  same_owner = q.same_owner ∙ p.same_owner;
  same_amount = q.same_amount ∙ p.same_amount;
  same_currency = q.same_currency ∙ p.same_currency;
  same_expiry = q.same_expiry ∙ p.same_expiry;
  final = elim p.final [
    | inl f ↦ inl f
    | inr f ↦ elim q.final [
      | inl g ↦ inl (subst (λ row. is_terminal row.status ≡ false) f g)
      | inr g ↦ inr (g ∙ f)
    ]
  ];
}

IsLater-refl : (row : PayLinkRow) → IsLater row row
IsLater-refl row = ground arith

Edge-IsLater :
    {row row' : PayLinkRow} {es : List PayLinkEvent} → Edge row row' es → IsLater row row'
Edge-IsLater (submitting h s eq) = ground arith
Edge-IsLater (settling now chain t h eq) = record {
  same_id = rw eq refl;
  same_creator = rw eq refl;
  same_receiver = rw eq refl;
  same_owner = rw eq refl;
  same_amount = rw eq refl;
  same_currency = rw eq refl;
  same_expiry = rw eq refl;
  final = inl t;
}
Edge-IsLater (cancelling by t eq) = ground arith

pub Edge-keeps_id :
    {row row' : PayLinkRow} {es : List PayLinkEvent} → Edge row row' es → row'.pl_id ≡ row.pl_id
Edge-keeps_id edge = (Edge-IsLater edge).same_id

-- A PayLink that is stored is still stored after any changes, in a later state.
unfoldable pub Kept : String → PayLinkRow → PayLinkDb → Type 0
Kept k row d = (row' : PayLinkRow) × (lookup k d.paylinks ≡ some row') × IsLater row row'

Step-Kept :
    {d d' : PayLinkDb} {es : List PayLinkEvent} (k : String) (row : PayLinkRow)
    → Step d d' es
    → lookup k d.paylinks ≡ some row
    → Kept k row d'
unfolding Kept
Step-Kept {d} {d'} k row (adding new event absent fresh u v eq) h = subst (Kept k row) (sym eq) (
  row,
  lookup-insert new.pl_id k new d.paylinks ∙ ground (arith, absent, h, eq_iff_at new.pl_id k),
  IsLater-refl row,
)
Step-Kept {d} {d'} k row (changing old new es found edge eq) h =
    elim (Bool-cases (old.pl_id == k)) [
      | inl b ↦ subst (Kept k row) (sym eq) (
        new,
        lookup-insert old.pl_id k new d.paylinks ∙ ground (arith, b),
        subst (λ r. IsLater r new) (ground (arith, found, h, b, eq_iff_at old.pl_id k))
            (Edge-IsLater edge),
      )
      | inr b ↦
          subst (Kept k row) (sym eq)
            (row, lookup-insert old.pl_id k new d.paylinks ∙ ground (arith, b, h), IsLater-refl row)
    ]

pub Steps-Kept :
    {d d' : PayLinkDb} (k : String) (row : PayLinkRow)
    → Steps d d'
    → lookup k d.paylinks ≡ some row
    → Kept k row d'
unfolding Kept
Steps-Kept k row here h = (row, h, IsLater-refl row)
Steps-Kept k row (next steps step) h =
    let (mid, found, until) = Steps-Kept k row steps h in
    let (last, found', then_on) = Step-Kept k mid step found in
    (last, found', IsLater-trans until then_on)
