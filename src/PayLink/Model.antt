-- ===== src/PayLink/Model.antt =====
-- linkmint-backend/paylink-service: app/domain/models.py, app/domain/reconcile.py,
-- app/chain/mapping.py and the rows of app/db/models.py. A time is a number of microseconds, the
-- expiry of the chain a number of seconds. Metadata and rules are JSON texts that nothing reads.
use paylink.Prelude.{
  ℕ, ◌*◌, String, Bool, true, false, not, ◌&&◌, Option, none, some, List, [], ◌∷◌, ltb,
  if◌then◌else◌, ◌==◌, string_eq, nat_eq, Table, lookup,
}

pub data OffChainStatus : Type 0 where
  created pending verified failed cancelled expired : OffChainStatus

-- `TERMINAL`
abbrev pub is_terminal : OffChainStatus → Bool
is_terminal verified = true
is_terminal failed = true
is_terminal cancelled = true
is_terminal _ = false

abbrev pub same_status : OffChainStatus → OffChainStatus → Bool
same_status created created = true
same_status pending pending = true
same_status verified verified = true
same_status failed failed = true
same_status cancelled cancelled = true
same_status expired expired = true
same_status _ _ = false

pub record ChainPayLink : Type 0 where
  pub status : String
  pub expiry : ℕ
  pub vote_count : ℕ

abbrev pub chain_to_offchain : Table String OffChainStatus
chain_to_offchain =
    ("CREATED", pending)
    ∷ ("VERIFIED", verified)
    ∷ ("FAILED", failed)
    ∷ ("CANCELLED", cancelled)
    ∷ []

-- `chain.expiry and now.timestamp() > chain.expiry`
abbrev pub is_past : ℕ → ChainPayLink → Bool
is_past now chain = not (chain.expiry == 0) && ltb (chain.expiry * 1000000) now

abbrev pub pending_or_expired : ℕ → ChainPayLink → OffChainStatus
pending_or_expired now chain = if is_past now chain then expired else pending

-- the status that the chain's one stands for
abbrev pub from_chain : ℕ → ChainPayLink → OffChainStatus
from_chain now chain = elim (lookup chain.status chain_to_offchain) [
  | none ↦ pending_or_expired now chain
  | some status ↦ if is_terminal status then status else pending_or_expired now chain
]

unfoldable pub reconcile_status : OffChainStatus → Option ChainPayLink → ℕ → OffChainStatus
unfolding lookup
reconcile_status local chain now =
    if is_terminal local then local else elim chain [ none ↦ local | some c ↦ from_chain now c ]

pub record PayLinkRow : Type 0 where
  pub pl_id : String
  pub creator_addr : String
  pub receiver_addr : String
  pub owner_addr : String
  pub amount : ℕ
  pub currency : String
  pub status : OffChainStatus
  pub expiry : ℕ
  pub usage : String
  pub metadata : Option String
  pub rules : Option String
  pub chain_tx_hash : Option String
  pub vote_count : ℕ
  pub verified_at : Option ℕ

-- an event with its payload
pub data PayLinkEvent : Type 0 where
  paylink_requested :
      (pl_id creator receiver : String) (amount : ℕ) (currency : String) (expiry : ℕ)
      (usage : String)
      → PayLinkEvent
  paylink_created : (pl_id chain_tx_hash : String) → PayLinkEvent
  paylink_expired : (pl_id : String) → PayLinkEvent
  paylink_cancelled : (pl_id by : String) → PayLinkEvent

pub record PayLinkDb : Type 0 where
  pub paylinks : Table String PayLinkRow
  pub events : List PayLinkEvent
