-- ===== src/PayLink/Tests.antt =====
-- The PayLinks of linkmint-backend/paylink-service on concrete requests, and the theorems about them
-- at these requests.
use paylink.Prelude.{
  ℕ, String, ◌≡◌, refl, true, false, Option, none, some, List, [], ◌∷◌, ok, err, lookup, string_eq,
  ◌⊎◌, insert,
}
use paylink.PayLink.Model.{
  OffChainStatus, pending, verified, expired, is_terminal, ChainPayLink, reconcile_status,
  PayLinkRow,
}
use paylink.PayLink.Chain.{Chain, shown, Node, kyc_required, submit}
use paylink.PayLink.Service.{
  CreateCommand, Wiring, Settings, ComplianceClient, compliance_gate, create, perform,
}
use paylink.PayLink.Settle.{get, cancel}
use paylink.PayLink.Lifecycle.{Kept}
use paylink.PayLink.Validity.{IsValid}
use paylink.PayLink.Course.{renewed}
use paylink.PayLink.Nonces.{NoncesRise}
use paylink.PayLink.Truth.{chain_name, reconcile_status-settles}
use paylink.PayLink.Refusal.{IsRefused, is_stored, create-IsRefused}
use paylink.PayLink.Calls.{
  Call, creating, getting, cancelling, serve, serve_all, new_node, serve_all-IsValid,
  serve_all-NoncesRise, serve_all-Kept,
}

abbrev settings : Settings
settings = record {
  compliance_check_enabled = true;
  amount_kyc_threshold = 1000;
  compliance_fail_open = false;
  chain_submit_enabled = true;
}

abbrev blocking : ComplianceClient
blocking user amount currency pl_id = some "block"

abbrev wiring : Wiring
wiring = record {
  settings = settings;
  compliance = some blocking;
  signer = "0x5e";
  metadata_hash = λ metadata. "0x0";
}

-- a chain that takes every transaction and shows the PayLink with a status
abbrev chain_at : String → Chain
chain_at status = record {
  nonce_of = λ address. ok 3;
  send_transaction = λ tx. ok "0xaa";
  paylink_of = λ pl_id. shown (record { status = status; expiry = 50; vote_count = 2 });
}

abbrev command : ℕ → CreateCommand
command amount = record {
  receiver = "0xb";
  amount = amount;
  currency = "PLN";
  expiry = 50000000;
  usage = "single";
  metadata = none;
  rules = none;
  caller_addr = "0xa";
  user_id = some "u-1";
}

abbrev first_calls : List Call
first_calls =
    creating wiring (chain_at "CREATED") "pl-1" (command 10)
    ∷ creating wiring (chain_at "CREATED") "pl-2" (command 20)
    ∷ getting (chain_at "VERIFIED") 40000000 "pl-1"
    ∷ []

abbrev later_calls : List Call
later_calls =
    cancelling wiring (chain_at "CREATED") "pl-1" "0xa"
    ∷ getting (chain_at "CREATED") 60000000 "pl-2"
    ∷ creating wiring (chain_at "CREATED") "pl-3" (command 5000)
    ∷ []

abbrev two_sent : Node
unfolding serve_all
two_sent = serve_all first_calls new_node

abbrev status_in : Node → String → Option OffChainStatus
status_in n k = elim (lookup k n.session.stored.paylinks) [
  | none ↦ none
  | some row ↦ some row.status
]

-- Verified by the chain, not to be cancelled, expired, and refused.
statuses :
    let last = serve_all later_calls two_sent in
    (status_in last "pl-1" ≡ some verified)
    × (status_in last "pl-2" ≡ some expired)
    × (status_in last "pl-3" ≡ none)
unfolding serve_all serve lookup create get cancel submit insert reconcile_status
statuses = (refl, refl, refl)

serve_all-IsValid_example : IsValid (serve_all first_calls new_node).session.stored
serve_all-IsValid_example = serve_all-IsValid first_calls

serve_all-NoncesRise_example : NoncesRise (serve_all first_calls new_node).taken
serve_all-NoncesRise_example = serve_all-NoncesRise first_calls

abbrev verified_row : PayLinkRow
verified_row = record {
  pl_id = "pl-1";
  creator_addr = "0xa";
  receiver_addr = "0xb";
  owner_addr = "0xa";
  amount = 10;
  currency = "PLN";
  status = verified;
  expiry = 50000000;
  usage = "single";
  metadata = none;
  rules = none;
  chain_tx_hash = some "0xaa";
  vote_count = 2;
  verified_at = some 40000000;
}

verified_row-stored :
    lookup "pl-1" (serve_all first_calls new_node).session.stored.paylinks ≡ some verified_row
unfolding serve_all serve lookup get create submit insert reconcile_status
verified_row-stored = refl

serve_all-Kept_example :
    Kept "pl-1" verified_row (serve_all later_calls (serve_all first_calls new_node)).session.stored
serve_all-Kept_example =
    serve_all-Kept first_calls later_calls "pl-1" verified_row verified_row-stored

refused_run :
    (perform (create wiring (chain_at "CREATED") "pl-3" (command 5000)) two_sent).0
    ≡ err kyc_required
unfolding create compliance_gate
refused_run = refl

create-IsRefused_example :
    (IsRefused wiring "pl-3" (command 5000)
      × (perform (create wiring (chain_at "CREATED") "pl-3" (command 5000)) two_sent
          ≡ (err kyc_required, renewed two_sent)))
    ⊎ ((¬ IsRefused wiring "pl-3" (command 5000))
        × (is_stored "pl-3"
              (perform (create wiring (chain_at "CREATED") "pl-3" (command 5000)) two_sent).1
            ≡ true))
create-IsRefused_example =
    create-IsRefused wiring (chain_at "CREATED") "pl-3" (command 5000) two_sent

abbrev shown_verified : ChainPayLink
shown_verified = record { status = "VERIFIED"; expiry = 50; vote_count = 2 }

comes_to_final : is_terminal (reconcile_status pending (some shown_verified) 7) ≡ true
unfolding reconcile_status lookup
comes_to_final = refl

reconcile_status-settles_example :
    (c : ChainPayLink) × (some shown_verified ≡ some c)
    × (c.status ≡ chain_name (reconcile_status pending (some shown_verified) 7))
reconcile_status-settles_example =
    reconcile_status-settles pending (some shown_verified) 7 refl comes_to_final
