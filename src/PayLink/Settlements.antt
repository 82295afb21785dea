-- ===== src/PayLink/Settlements.antt =====
-- Reading and cancelling a PayLink in app/domain/service.py of linkmint-backend/paylink-service.
use paylink.Prelude.{
  ℕ, String, ◌≡◌, ◌⊎◌, inl, inr, refl, true, false, not, ◌&&◌, ◌||◌, none, some, List, [], ◌∷◌,
  arith, Option-cases, Bool-cases, lookup, string_eq, ◌==◌, is_some, append-nil, All-lookup,
  if◌then◌else◌,
}
use paylink.PayLink.Model.{
  OffChainStatus, cancelled, expired, is_terminal, same_status, ChainPayLink, from_chain,
  reconcile_status, PayLinkRow, PayLinkEvent, paylink_expired, paylink_cancelled,
}
use paylink.PayLink.Chain.{
  cancel_tx, Chain, ChainReply, unavailable, malformed, absent, shown, Node,
}
use paylink.PayLink.Service.{Wiring, perform}
use paylink.PayLink.Settle.{
  reconciled, reconcile_with, reconcile, get, cancel_error, submit_cancel, cancel_row, cancel,
}
use paylink.PayLink.Lifecycle.{settling, cancelling, Step, changing}
use paylink.PayLink.Validity.{IsValid, StandsUnder}
use paylink.PayLink.Course.{
  quiet, signed, Course, after, renewed, idle, stepped, submit-cases, unmoved, ended, took,
  signed_step, becomes,
}

reconcile_status-from_chain :
    (local : OffChainStatus) (c : ChainPayLink) (now : ℕ)
    → is_terminal local ≡ false
    → reconcile_status local (some c) now ≡ from_chain now c
unfolding reconcile_status
reconcile_status-from_chain local c now going = ground (arith, going)

module _ (now : ℕ) (row : PayLinkRow) (c : ChainPayLink) (n : Node) (status : OffChainStatus)
    (to : reconcile_status row.status (some c) now ≡ status)
    (fresh : n.session.working ≡ n.session.stored) where
  expiry_events : List PayLinkEvent
  expiry_events = if same_status status expired then paylink_expired row.pl_id ∷ [] else []

  reconcile_with_same : same_status status row.status ≡ true → (reconcile_with now row c n).1 ≡ n
  unfolding reconcile_with
  reconcile_with_same b = ground (arith, to, b)

  reconcile_with_changed :
      same_status status row.status ≡ false
      → (reconcile_with now row c n).1 ≡ after (reconciled now row c status) expiry_events n
  unfolding reconcile_with expiry_events
  reconcile_with_changed b = elim (Bool-cases (same_status status expired)) [
    | inl x ↦ ground (arith, to, b, x, fresh)
    | inr x ↦
        ground (
          arith,
          to,
          b,
          x,
          fresh,
          append-nil n.session.stored.events,
          append-nil n.session.published,
        )
  ]

reconcile_with-Course :
    (now : ℕ) (row : PayLinkRow) (c : ChainPayLink) (n : Node)
    → n.session.working ≡ n.session.stored
    → lookup row.pl_id n.session.stored.paylinks ≡ some row
    → is_terminal row.status ≡ false
    → is_some row.chain_tx_hash ≡ true
    → Course n (reconcile_with now row c n).1
unfolding expiry_events
reconcile_with-Course now row c n fresh stands going sent =
    let status = from_chain now c in
    let row' = reconciled now row c status in
    let to = reconcile_status-from_chain row.status c now going in
    elim (Bool-cases (same_status status row.status)) [
      | inl b ↦ becomes {m' = n} (reconcile_with_same now row c n status to fresh b) unmoved
      | inr b ↦
          let events = expiry_events now row c n status to fresh in
          becomes {m' = after row' events n} (reconcile_with_changed now row c n status to fresh b)
            (stepped row' events
              (changing row row' events stands (settling now c going sent refl) refl))
    ]

-- The chain shows the PayLink or it does not.
ChainReply-cases :
    (r : ChainReply)
    → ((r ≡ unavailable) ⊎ (r ≡ malformed) ⊎ (r ≡ absent)) ⊎ ((c : ChainPayLink) × (r ≡ shown c))
ChainReply-cases unavailable = inl (inl refl)
ChainReply-cases malformed = inl (inr (inl refl))
ChainReply-cases absent = inl (inr (inr refl))
ChainReply-cases (shown c) = inr (c, refl)

-- A course from a new session is one from the state before it.
restarted : {n m : Node} → Course (renewed n) m → Course n m
restarted c = record {
  reported = c.reported;
  steps = c.steps;
  stored_events = c.stored_events;
  echoed = c.echoed;
  signing = elim c.signing [ quiet a b ↦ quiet a b | signed tx a b d ↦ signed tx a b d ];
}

cancel_error-none :
    (status : OffChainStatus)
    → cancel_error status ≡ none
    → same_status status cancelled ≡ false
    → is_terminal status ≡ false
cancel_error-none status c live = ground arith

cancel_row-Course :
    (w : Wiring) (chain : Chain) (by : String) (row : PayLinkRow) (n : Node)
    → n.session.working ≡ n.session.stored
    → lookup row.pl_id n.session.stored.paylinks ≡ some row
    → same_status row.status cancelled ≡ false
    → Course n (cancel_row w chain by row n).1
unfolding cancel_row submit_cancel
cancel_row-Course w chain by row n fresh stands live =
    let row' = record row { status = cancelled } in
    let events = paylink_cancelled row.pl_id by ∷ [] in
    elim (Option-cases (cancel_error row.status)) [
      | inr (e, c) ↦ becomes {m' = n} (ground (arith, c)) unmoved
      | inl c ↦
          let step : Step n.session.stored (after row' events n).session.stored events =
            changing row row' events stands
              (cancelling by (cancel_error-none row.status c live) refl) refl in
          elim (Bool-cases (w.settings.chain_submit_enabled && is_some row.chain_tx_hash)) [
            | inr b ↦
                becomes {m' = after row' events n} (ground (arith, c, b, fresh))
                  (stepped row' events step)
            | inl b ↦ elim (submit-cases chain w.signer (cancel_tx row.pl_id) n) [
              | inl (e, t) ↦ becomes {m' = n} (ground (arith, c, b, t)) unmoved
              | inr (hash, tx, above, t) ↦
                  becomes {m' = after row' events (took tx n)} (ground (arith, c, b, t, fresh))
                    (signed_step tx row' events above step)
            ]
          ]
    ]

pub get-Course :
    (chain : Chain) (now : ℕ) (pl_id : String) (n : Node)
    → IsValid n.session.stored
    → Course n (perform (get chain now pl_id) n).1
unfolding get reconcile
get-Course chain now pl_id n v = elim (Option-cases (lookup pl_id n.session.stored.paylinks)) [
  | inl e ↦ becomes {m' = renewed n} (ground (arith, e)) idle
  | inr (row, e) ↦ elim (Bool-cases (is_terminal row.status || not (is_some row.chain_tx_hash))) [
    | inl b ↦ becomes {m' = renewed n} (ground (arith, e, b)) idle
    | inr b ↦ elim (ChainReply-cases (chain.paylink_of row.pl_id)) [
      | inl quiet_chain ↦ becomes {m' = renewed n} (ground (arith, e, b, quiet_chain)) idle
      | inr (c, r) ↦
          let id = All-lookup StandsUnder pl_id row n.session.stored.paylinks v.keyed e in
          becomes {m' = renewed (reconcile_with now row c (renewed n)).1} (ground (arith, e, b, r))
            (ended {n = n} (
              restarted (
                reconcile_with-Course now row c (renewed n) refl (ground (arith, id, e))
                  (ground (arith, b)) (ground (arith, b)))))
    ]
  ]
]

pub cancel-Course :
    (w : Wiring) (chain : Chain) (pl_id caller_addr : String) (n : Node)
    → IsValid n.session.stored
    → Course n (perform (cancel w chain pl_id caller_addr) n).1
unfolding cancel
cancel-Course w chain pl_id by n v = elim (Option-cases (lookup pl_id n.session.stored.paylinks)) [
  | inl e ↦ becomes {m' = renewed n} (ground (arith, e)) idle
  | inr (row, e) ↦ elim (Bool-cases (not (by == row.creator_addr || by == row.owner_addr))) [
    | inl b ↦ becomes {m' = renewed n} (ground (arith, e, b)) idle
    | inr b ↦ elim (Bool-cases (same_status row.status cancelled)) [
      | inl c ↦ becomes {m' = renewed n} (ground (arith, e, b, c)) idle
      | inr c ↦
          let id = All-lookup StandsUnder pl_id row n.session.stored.paylinks v.keyed e in
          let m = cancel_row w chain by row (renewed n) in
          becomes {m' = renewed m.1} (ground (arith, e, b, c)) (
            ended {n = n} (
              restarted
                (cancel_row-Course w chain by row (renewed n) refl (ground (arith, id, e)) c)))
    ]
  ]
]
