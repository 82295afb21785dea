-- ===== src/PayLink/Settle.antt =====
-- linkmint-backend/paylink-service/app/domain/service.py: reading a PayLink, with its status taken
-- from the chain, and cancelling one. A row is fetched by its `pl_id`, so the two names stand for
-- one value.
use paylink.Prelude.{
  ℕ, ⊤, String, not, ◌&&◌, ◌||◌, Option, none, some, pure, raise, or_raise, raise_if, ◌>>=◌, ◌>>◌,
  if◌then◌else◌, ◌==◌, string_eq, lookup, commit, query, is_some,
}
use paylink.PayLink.Model.{
  OffChainStatus, verified, failed, cancelled, expired, is_terminal, same_status, ChainPayLink,
  reconcile_status, PayLinkRow, paylink_expired, paylink_cancelled,
}
use paylink.PayLink.Chain.{
  PayLinkError, paylink_not_found, unauthorized, already_settled, already_expired, value_error,
  cancel_tx, unavailable, malformed, absent, shown, Chain, Method, on_session, submit,
}
use paylink.PayLink.Service.{Wiring, emit, save}

-- the row after its status is taken from the chain
abbrev pub reconciled : ℕ → PayLinkRow → ChainPayLink → OffChainStatus → PayLinkRow
reconciled now row chain status = record row {
  status = status;
  vote_count = chain.vote_count;
  verified_at = if same_status status verified then some now else row.verified_at;
}

-- `_reconcile` with what the chain says of the PayLink
unfoldable pub reconcile_with : ℕ → PayLinkRow → ChainPayLink → Method PayLinkRow
reconcile_with now row chain =
    let status = reconcile_status row.status (some chain) now in
    let row' = reconciled now row chain status in
    if same_status status row.status then pure row else (do
      save row'
      if same_status status expired then emit (paylink_expired row.pl_id) else on_session commit
      pure row')

unfoldable pub reconcile : Chain → ℕ → PayLinkRow → Method PayLinkRow
unfolding reconcile_with
reconcile chain now row =
    if is_terminal row.status || not (is_some row.chain_tx_hash)
    then pure row
    else elim (chain.paylink_of row.pl_id) [
      | unavailable ↦ pure row
      | malformed ↦ raise value_error
      | absent ↦ pure row
      | shown c ↦ reconcile_with now row c
    ]

unfoldable pub get : Chain → ℕ → (pl_id : String) → Method PayLinkRow
unfolding reconcile
get chain now pl_id = do
  row ← or_raise (← on_session (query (λ d. lookup pl_id d.paylinks))) paylink_not_found
  reconcile chain now row

-- the error of a status in which nothing can be cancelled
abbrev pub cancel_error : OffChainStatus → Option PayLinkError
cancel_error verified = some already_settled
cancel_error failed = some already_settled
cancel_error expired = some already_expired
cancel_error _ = none

unfoldable pub submit_cancel : Wiring → Chain → PayLinkRow → Method ⊤
submit_cancel w chain row =
    if w.settings.chain_submit_enabled && is_some row.chain_tx_hash
    then submit chain w.signer (cancel_tx row.pl_id) >> pure tt
    else pure tt

-- `cancel` of a PayLink that is not cancelled
unfoldable pub cancel_row : Wiring → Chain → (caller_addr : String) → PayLinkRow → Method PayLinkRow
unfolding submit_cancel
cancel_row w chain caller_addr row = elim (cancel_error row.status) [
  | some e ↦ raise e
  | none ↦
      let row' = record row { status = cancelled } in
      (do
        submit_cancel w chain row
        save row'
        emit (paylink_cancelled row.pl_id caller_addr)
        pure row')
]

unfoldable pub cancel : Wiring → Chain → (pl_id caller_addr : String) → Method PayLinkRow
unfolding cancel_row
cancel w chain pl_id caller_addr = do
  row ← or_raise (← on_session (query (λ d. lookup pl_id d.paylinks))) paylink_not_found
  raise_if (not (caller_addr == row.creator_addr || caller_addr == row.owner_addr)) unauthorized
  if same_status row.status cancelled then pure row else cancel_row w chain caller_addr row
