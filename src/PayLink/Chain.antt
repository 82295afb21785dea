-- ===== src/PayLink/Chain.antt =====
-- linkmint-backend/paylink-service: the chain's JSON-RPC as app/chain/client.py reports it, which is
-- a parameter, the transactions of app/chain/tx_builder.py and the nonces of app/chain/nonce.py. A
-- transaction stands for its signed form, and the lock of the nonces for one that is sent at a time.
use paylink.Prelude.{
  ℕ, suc, max, String, Option, none, some, List, [], ◌∷◌, ◌++◌, Result, Exec, pure, gets, modify,
  lift, ◌>>=◌, ◌>>◌, Table, lookup, insert, string_eq, Session,
}
use paylink.PayLink.Model.{ChainPayLink, PayLinkDb, PayLinkEvent}

pub data PayLinkError : Type 0 where
  paylink_not_found kyc_required unauthorized already_settled already_expired chain_unavailable
        rpc_error value_error integrity_error :
      PayLinkError

pub data TxBody : Type 0 where
  create_tx :
      (pl_id receiver : String) (amount expiry : ℕ) (metadata_hash : String) (rules : Option String)
      → TxBody
  cancel_tx : (pl_id : String) → TxBody

pub record Tx : Type 0 where
  pub from_addr : String
  pub nonce : ℕ
  pub body : TxBody

-- what `get_paylink` comes to: no answer, one that `from_rpc` cannot read, no such PayLink, or one
pub data ChainReply : Type 0 where
  unavailable malformed absent : ChainReply
  shown : (chain : ChainPayLink) → ChainReply

-- The chain at the time of a call; an error is what the client raises.
pub record Chain : Type 0 where
  pub nonce_of : String → Result PayLinkError ℕ
  pub send_transaction : Tx → Result PayLinkError String
  pub paylink_of : String → ChainReply

-- the service: its database, `NonceManager._next`, and the transactions that the chain has taken
pub record Node : Type 0 where
  pub session : Session PayLinkDb PayLinkEvent
  pub next_nonce : Table String ℕ
  pub taken : List Tx

abbrev pub Method : Type 0 → Type 0
Method A = Exec PayLinkError Node A

abbrev pub on_session {ℓ} :
    {A : Type ℓ} → Exec PayLinkError (Session PayLinkDb PayLinkEvent) A → Exec PayLinkError Node A
on_session m n = let (r, s) = m n.session in (r, record n { session = s })

abbrev pub or_zero : Option ℕ → ℕ
or_zero none = 0
or_zero (some n) = n

-- `self._next.get(address, 0)`
unfoldable pub next_of : String → Table String ℕ → ℕ
next_of address nonces = or_zero (lookup address nonces)

-- `reserve`, with the sending in its body
unfoldable pub submit : (chain : Chain) (signer : String) (body : TxBody) → Method String
submit chain signer body = do
  chain_nonce ← lift (chain.nonce_of signer)
  next ← gets (λ n. next_of signer n.next_nonce)
  let nonce = max chain_nonce next
  let tx : Tx = record { from_addr = signer; nonce = nonce; body = body }
  tx_hash ← lift (chain.send_transaction tx)
  modify (λ n. record n {
    next_nonce = insert signer (suc nonce) n.next_nonce;
    taken = n.taken ++ tx ∷ [];
  })
  pure tx_hash
