-- ===== src/PayLink/Course.antt =====
-- What a request of linkmint-backend/paylink-service does to the service, whether it returns or
-- raises: changes of the lifecycle, the events that it stores and publishes, and its transactions.
use paylink.Prelude.{
  max, suc, ◌≤◌, String, ◌≡◌, ◌⊎◌, inl, inr, refl, List, [], ◌∷◌, ◌++◌, arith, ok, err,
  Result-cases, insert, string_eq, ◌∙◌, sym, subst, append_assoc, append-nil,
}
use paylink.PayLink.Model.{PayLinkRow, PayLinkEvent, PayLinkDb}
use paylink.PayLink.Chain.{PayLinkError, Tx, TxBody, Chain, Node, next_of, submit}
use paylink.PayLink.Lifecycle.{Step, Steps, Steps-trans, here, next}

-- The transactions of a request: none, or one that the chain took, with a nonce that the service had
-- not used, which moves its next one beyond it.
pub data Signed (n n' : Node) : Type 0 where
  quiet : n'.next_nonce ≡ n.next_nonce → n'.taken ≡ n.taken → Signed n n'
  signed :
      (tx : Tx)
      → next_of tx.from_addr n.next_nonce ≤ tx.nonce
      → n'.next_nonce ≡ insert tx.from_addr (suc tx.nonce) n.next_nonce
      → n'.taken ≡ n.taken ++ tx ∷ []
      → Signed n n'

pub record Course (n n' : Node) : Type 0 where
  pub reported : List PayLinkEvent
  pub steps : Steps n.session.stored n'.session.stored
  pub stored_events : n'.session.stored.events ≡ n.session.stored.events ++ reported
  pub echoed : n'.session.published ≡ n.session.published ++ reported
  pub signing : Signed n n'

-- the service after its database, its outbox and its session took one change
abbrev pub after : PayLinkRow → List PayLinkEvent → Node → Node
after row events n =
    let d : PayLinkDb = record {
      paylinks = insert row.pl_id row n.session.stored.paylinks;
      events = n.session.stored.events ++ events;
    } in
    record n {
      session = record { stored = d; working = d; published = n.session.published ++ events };
    }

abbrev pub renewed : Node → Node
renewed n = record n { session = record n.session { working = n.session.stored } }

module _ {n : Node} where
  pub idle : Course n (renewed n)
  idle = record {
    reported = [];
    steps = here;
    stored_events = sym (append-nil n.session.stored.events);
    echoed = sym (append-nil n.session.published);
    signing = quiet refl refl;
  }

  pub stepped :
      (row : PayLinkRow) (events : List PayLinkEvent)
      → Step n.session.stored (after row events n).session.stored events
      → Course n (after row events n)
  stepped row events step = record {
    reported = events;
    steps = next here step;
    stored_events = refl;
    echoed = refl;
    signing = quiet refl refl;
  }

-- What `submit` comes to.
pub submit-cases :
    (chain : Chain) (signer : String) (body : TxBody) (n : Node)
    → ((e : PayLinkError) × (submit chain signer body n ≡ (err e, n)))
      ⊎ ((tx_hash : String) × (tx : Tx) × (next_of tx.from_addr n.next_nonce ≤ tx.nonce)
          × (submit chain signer body n ≡ (
            ok tx_hash,
            record n {
              next_nonce = insert tx.from_addr (suc tx.nonce) n.next_nonce;
              taken = n.taken ++ tx ∷ [];
            },
          )))
unfolding submit
submit-cases chain signer body n = elim (Result-cases (chain.nonce_of signer)) [
  | inl (e, c) ↦ inl (e, ground (arith, c))
  | inr (chain_nonce, c) ↦
      let tx : Tx = record {
        from_addr = signer;
        nonce = max chain_nonce (next_of signer n.next_nonce);
        body = body;
      } in
      elim (Result-cases (chain.send_transaction tx)) [
        | inl (e, t) ↦ inl (e, ground (arith, c, t))
        | inr (hash, t) ↦ inr (hash, tx, omega arith, ground (arith, c, t))
      ]
]

pub unmoved : {n : Node} → Course n n
unmoved {n} = record {
  reported = [];
  steps = here;
  stored_events = sym (append-nil n.session.stored.events);
  echoed = sym (append-nil n.session.published);
  signing = quiet refl refl;
}

module _ {n m : Node} where
  -- The session of a request ends with it, which changes nothing that is stored.
  pub ended : Course n m → Course n (renewed m)
  ended c = record {
    reported = c.reported;
    steps = c.steps;
    stored_events = c.stored_events;
    echoed = c.echoed;
    signing = elim c.signing [ quiet a b ↦ quiet a b | signed tx a b d ↦ signed tx a b d ];
  }

  -- a first change, and what follows it
  pub followed :
      (row : PayLinkRow) (events : List PayLinkEvent)
      → Step n.session.stored (after row events n).session.stored events
      → Course (after row events n) m
      → Course n m
  followed row events step c = record {
    reported = events ++ c.reported;
    steps = Steps-trans (next here step) c.steps;
    stored_events = c.stored_events ∙ append_assoc n.session.stored.events events c.reported;
    echoed = c.echoed ∙ append_assoc n.session.published events c.reported;
    signing = elim c.signing [ quiet a b ↦ quiet a b | signed tx a b d ↦ signed tx a b d ];
  }

-- the service after the chain took a transaction
abbrev pub took : Tx → Node → Node
took tx n = record n {
  next_nonce = insert tx.from_addr (suc tx.nonce) n.next_nonce;
  taken = n.taken ++ tx ∷ [];
}

-- a change that the chain took a transaction for
pub signed_step :
    {n : Node} (tx : Tx) (row : PayLinkRow) (events : List PayLinkEvent)
    → next_of tx.from_addr n.next_nonce ≤ tx.nonce
    → Step n.session.stored (after row events n).session.stored events
    → Course n (after row events (took tx n))
signed_step tx row events above step = record {
  reported = events;
  steps = next here step;
  stored_events = refl;
  echoed = refl;
  signing = signed tx above refl refl;
}

-- by an equation for the state that comes out
pub becomes : {n m m' : Node} → m ≡ m' → Course n m' → Course n m
becomes {n} e c = subst (Course n) (sym e) c
