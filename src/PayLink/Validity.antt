-- ===== src/PayLink/Validity.antt =====
-- What every row of linkmint-backend/paylink-service keeps to, over the changes of the lifecycle.
use paylink.Prelude.{
  ℕ, String, ◌≡◌, refl, true, false, ◌&&◌, ◌||◌, List, arith, string_eq, lookup, All, All-insert,
  All-lookup, IsDict, insert-IsDict, is_some, subst, sym, inl, inr, Option-cases,
}
use paylink.PayLink.Model.{
  OffChainStatus, created, pending, verified, failed, cancelled, expired, is_terminal, same_status,
  PayLinkRow, PayLinkEvent, PayLinkDb, from_chain, ChainPayLink, chain_to_offchain,
}
use paylink.PayLink.Settle.{reconciled}
use paylink.PayLink.Lifecycle.{
  Edge, submitting, settling, cancelling, Edge-keeps_id, Step, adding, changing, Steps, here, next,
}

-- A PayLink was sent to the chain exactly if it is past its creation, or perhaps if it was cancelled,
-- and has a time of verification exactly if it is verified.
pub record IsSound (row : PayLinkRow) : Type 0 where
  pub unsent : same_status row.status created && is_some row.chain_tx_hash ≡ false
  pub sent :
      same_status row.status created
        || same_status row.status cancelled
        || is_some row.chain_tx_hash
      ≡ true
  pub verified_when : is_some row.verified_at ≡ same_status row.status verified

reconciled-IsSound :
    (now : ℕ) (row : PayLinkRow) (chain : ChainPayLink) (status : OffChainStatus)
    → IsSound row
    → is_terminal row.status ≡ false
    → is_some row.chain_tx_hash ≡ true
    → same_status status created ≡ false
    → IsSound (reconciled now row chain status)
reconciled-IsSound now row chain created v t h s = ground (arith, s)
reconciled-IsSound now row chain pending v t h s = ground (arith, v, t, h)
reconciled-IsSound now row chain verified v t h s = ground (arith, v, t, h)
reconciled-IsSound now row chain failed v t h s = ground (arith, v, t, h)
reconciled-IsSound now row chain cancelled v t h s = ground (arith, v, t, h)
reconciled-IsSound now row chain expired v t h s = ground (arith, v, t, h)

-- The chain never says that a PayLink is only a row of this service.
from_chain_known :
    (now : ℕ) (chain : ChainPayLink) → same_status (from_chain now chain) created ≡ false
from_chain_known now chain = elim (Option-cases (lookup chain.status chain_to_offchain)) [
  | inl e ↦ ground (arith, e)
  | inr (status, e) ↦ ground (arith, e)
]

Edge-IsSound :
    {row row' : PayLinkRow} {es : List PayLinkEvent} → Edge row row' es → IsSound row → IsSound row'
Edge-IsSound (submitting h s eq) v = ground arith
Edge-IsSound {row} (settling now chain t h eq) v =
    subst IsSound (sym eq)
      (reconciled-IsSound now row chain (from_chain now chain) v t h (from_chain_known now chain))
Edge-IsSound (cancelling by t eq) v = ground arith

abbrev pub StandsUnder : String × PayLinkRow → Type 0
StandsUnder entry = entry.1.pl_id ≡ entry.0

abbrev pub HasSoundRow : String × PayLinkRow → Type 0
HasSoundRow entry = IsSound entry.1

pub record IsValid (d : PayLinkDb) : Type 0 where
  pub dict : IsDict d.paylinks
  pub keyed : All StandsUnder d.paylinks
  pub sound : All HasSoundRow d.paylinks

Step-IsValid : {d d' : PayLinkDb} {es : List PayLinkEvent} → Step d d' es → IsValid d → IsValid d'
Step-IsValid {d} (adding row event absent fresh u w eq) v = subst IsValid (sym eq) (record {
  dict = insert-IsDict row.pl_id row d.paylinks v.dict;
  keyed = All-insert StandsUnder row.pl_id row d.paylinks refl v.keyed;
  sound = All-insert HasSoundRow row.pl_id row d.paylinks (ground arith) v.sound;
})
Step-IsValid {d} (changing row row' es found edge eq) v = subst IsValid (sym eq) (record {
  dict = insert-IsDict row.pl_id row' d.paylinks v.dict;
  keyed = All-insert StandsUnder row.pl_id row' d.paylinks (Edge-keeps_id edge) v.keyed;
  sound =
      All-insert HasSoundRow row.pl_id row' d.paylinks
        (Edge-IsSound edge (All-lookup HasSoundRow row.pl_id row d.paylinks v.sound found)) v.sound;
})

pub Steps-IsValid : {d d' : PayLinkDb} → Steps d d' → IsValid d → IsValid d'
Steps-IsValid here v = v
Steps-IsValid (next steps step) v = Step-IsValid step (Steps-IsValid steps v)
