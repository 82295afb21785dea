-- ===== src/PayLink/Nonces.antt =====
-- The nonces of the transactions of linkmint-backend/paylink-service (app/chain/nonce.py), over all
-- that the chain took from one running service.
use paylink.Prelude.{
  ℕ, suc, ◌≤◌, ◌<◌, String, ◌≢◌, ◌⊎◌, inl, inr, List, [], ◌∷◌, ◌++◌, arith, All, All-map,
  All-append, insert, lookup-insert, string_eq, eq_iff_at, ◌==◌, Bool-cases, Table, subst,
}
use paylink.PayLink.Chain.{Tx, Node, next_of}
use paylink.PayLink.Course.{Signed, quiet, signed}

-- a later transaction of another sender, or with a larger nonce
abbrev pub IsAfter : Tx → Tx → Type 0
IsAfter first later = (first.from_addr ≢ later.from_addr) ⊎ (first.nonce < later.nonce)

-- Each sender's nonces rise along the list.
abbrev pub NoncesRise : List Tx → Type 0
NoncesRise [] = Unit
NoncesRise (tx ∷ txs) = All (IsAfter tx) txs × NoncesRise txs

abbrev IsUsed : Table String ℕ → Tx → Type 0
IsUsed nonces tx = tx.nonce < next_of tx.from_addr nonces

-- All nonces that were used are below the next one of their sender.
pub record IsCounted (n : Node) : Type 0 where
  pub rising : NoncesRise n.taken
  pub used : All (IsUsed n.next_nonce) n.taken

IsUsed-insert :
    (nonces : Table String ℕ) (new : Tx)
    → next_of new.from_addr nonces ≤ new.nonce
    → (tx : Tx) → IsUsed nonces tx
    → IsUsed (insert new.from_addr (suc new.nonce) nonces) tx
unfolding next_of
IsUsed-insert nonces new above tx used = ground (
  arith,
  above,
  used,
  lookup-insert new.from_addr tx.from_addr (suc new.nonce) nonces,
  eq_iff_at new.from_addr tx.from_addr,
)

IsUsed-own :
    (nonces : Table String ℕ) (new : Tx) → IsUsed (insert new.from_addr (suc new.nonce) nonces) new
unfolding next_of
IsUsed-own nonces new = ground (
  arith,
  lookup-insert new.from_addr new.from_addr (suc new.nonce) nonces,
  eq_iff_at new.from_addr new.from_addr,
)

IsAfter-used :
    (nonces : Table String ℕ) (new : Tx)
    → next_of new.from_addr nonces ≤ new.nonce
    → (tx : Tx) → IsUsed nonces tx
    → IsAfter tx new
IsAfter-used nonces new above tx used = elim (Bool-cases (tx.from_addr == new.from_addr)) [
  | inl b ↦
      let same = (eq_iff_at tx.from_addr new.from_addr).0 b in
      inr (omega (arith, above, subst (λ a. tx.nonce < next_of a nonces) same used))
  | inr b ↦ inl (ground (arith, b, eq_iff_at tx.from_addr new.from_addr))
]

NoncesRise-append :
    (txs : List Tx) (new : Tx)
    → NoncesRise txs
    → All (λ tx. IsAfter tx new) txs
    → NoncesRise (txs ++ new ∷ [])
NoncesRise-append [] new r h = (tt, tt)
NoncesRise-append (tx ∷ txs) new r h =
    (All-append (IsAfter tx) txs (new ∷ []) r.0 (h.0, tt), NoncesRise-append txs new r.1 h.1)

pub Signed-IsCounted : {n n' : Node} → Signed n n' → IsCounted n → IsCounted n'
Signed-IsCounted {n} {n'} (quiet a b) h = record { rising = rw b h.rising; used = rw (a, b) h.used }
Signed-IsCounted {n} {n'} (signed tx above a b) h = record {
  rising = rw b (
      NoncesRise-append n.taken tx h.rising (
        All-map (IsUsed n.next_nonce) (λ t. IsAfter t tx) (IsAfter-used n.next_nonce tx above)
          n.taken h.used));
  used =
      rw (a, b)
        (All-append (IsUsed (insert tx.from_addr (suc tx.nonce) n.next_nonce)) n.taken (tx ∷ [])
          (All-map (IsUsed n.next_nonce) (IsUsed (insert tx.from_addr (suc tx.nonce) n.next_nonce))
            (IsUsed-insert n.next_nonce tx above) n.taken h.used)
          (IsUsed-own n.next_nonce tx, tt));
}
