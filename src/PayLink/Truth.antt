-- ===== src/PayLink/Truth.antt =====
-- Settlement is read from the chain: `reconcile_status` of linkmint-backend/paylink-service.
use paylink.Prelude.{
  ℕ, String, ◌≡◌, refl, true, false, Option, none, some, arith, lookup, string_eq, eq_iff_at,
}
use paylink.PayLink.Model.{
  OffChainStatus, verified, failed, cancelled, is_terminal, ChainPayLink, reconcile_status,
}

-- the name that the chain has for a final status
abbrev pub chain_name : OffChainStatus → String
chain_name verified = "VERIFIED"
chain_name failed = "FAILED"
chain_name cancelled = "CANCELLED"
chain_name _ = ""

-- A status that is not final becomes a final one only if the chain shows the PayLink under that very
-- status.
pub reconcile_status-settles :
    (local : OffChainStatus) (chain : Option ChainPayLink) (now : ℕ)
    → is_terminal local ≡ false
    → is_terminal (reconcile_status local chain now) ≡ true
    → (c : ChainPayLink) × (chain ≡ some c)
      × (c.status ≡ chain_name (reconcile_status local chain now))
unfolding reconcile_status lookup
reconcile_status-settles local none now going final = ground (arith, going, final)
reconcile_status-settles local (some c) now going final = (
  c,
  refl,
  ground (
    arith,
    going,
    final,
    eq_iff_at "CREATED" c.status,
    eq_iff_at "VERIFIED" c.status,
    eq_iff_at "FAILED" c.status,
    eq_iff_at "CANCELLED" c.status,
  ),
)
