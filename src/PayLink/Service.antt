-- ===== src/PayLink/Service.antt =====
-- linkmint-backend/paylink-service/app/domain/service.py: creation, with the queries of app/db/repository.py.
-- The compliance client is a parameter (`none` where it raises ComplianceUnavailable), the chain is
-- one, and the primary key refuses a second row. The in-app notifications, which never raise and
-- write nothing of this service, are not modelled.
use paylink.Prelude.{
  ℕ, ◌/◌, ⊤, String, Bool, not, ◌||◌, Option, none, some, [], ◌∷◌, ◌++◌, pure, raise_if, ◌>>=◌,
  ◌>>◌, leb, if◌then◌else◌, ◌==◌, string_eq, lookup, insert, commit, publish, write, query, is_some,
}
use paylink.PayLink.Model.{
  created, pending, PayLinkRow, PayLinkEvent, paylink_requested, paylink_created,
}
use paylink.PayLink.Chain.{
  kyc_required, integrity_error, create_tx, Chain, Method, on_session, submit,
}

pub record CreateCommand : Type 0 where
  pub receiver : String
  pub amount : ℕ
  pub currency : String
  pub expiry : ℕ
  pub usage : String
  pub metadata : Option String
  pub rules : Option String
  pub caller_addr : String
  pub user_id : Option String

pub record Settings : Type 0 where
  pub compliance_check_enabled : Bool
  pub amount_kyc_threshold : ℕ
  pub compliance_fail_open : Bool
  pub chain_submit_enabled : Bool

-- the decision of `evaluate`, when there is one
abbrev pub ComplianceClient : Type 0
ComplianceClient = (user_id : String) (amount : ℕ) (currency pl_id : String) → Option String

-- the service with what it is built from
pub record Wiring : Type 0 where
  pub settings : Settings
  pub compliance : Option ComplianceClient
  pub signer : String
  pub metadata_hash : Option String → String

-- a user id that is not empty
abbrev pub identified : Option String → Option String
identified none = none
identified (some user) = if user == "" then none else some user

-- the user that the check is made for, if it is made at all
abbrev pub gated : Wiring → CreateCommand → Option (ComplianceClient × String)
gated w cmd = elim w.compliance [
  | none ↦ none
  | some client ↦
      if not w.settings.compliance_check_enabled || leb cmd.amount w.settings.amount_kyc_threshold
      then none
      else elim (identified cmd.user_id) [ none ↦ none | some user ↦ some (client, user) ]
]

-- whether the answer refuses
abbrev pub refuses : Settings → Option String → Bool
refuses settings none = not settings.compliance_fail_open
refuses settings (some decision) = decision == "block"

unfoldable pub compliance_gate : Wiring → CreateCommand → String → Method ⊤
compliance_gate w cmd pl_id = elim (gated w cmd) [
  | none ↦ pure tt
  | some (client, user) ↦
      raise_if (refuses w.settings (client user cmd.amount cmd.currency pl_id)) kyc_required
]

abbrev pub emit : PayLinkEvent → Method ⊤
emit event =
    on_session (do write (λ d. record d { events = d.events ++ event ∷ [] }); commit; publish event)

abbrev pub save : PayLinkRow → Method ⊤
save row = on_session (write (λ d. record d { paylinks = insert row.pl_id row d.paylinks }))

abbrev pub new_row : CreateCommand → String → PayLinkRow
new_row cmd pl_id = record {
  pl_id = pl_id;
  creator_addr = cmd.caller_addr;
  receiver_addr = cmd.receiver;
  owner_addr = cmd.caller_addr;
  amount = cmd.amount;
  currency = cmd.currency;
  status = created;
  expiry = cmd.expiry;
  usage = cmd.usage;
  metadata = cmd.metadata;
  rules = cmd.rules;
  chain_tx_hash = none;
  vote_count = 0;
  verified_at = none;
}

-- `int(cmd.expiry.timestamp())`
abbrev pub expiry_unix : CreateCommand → ℕ
expiry_unix cmd = cmd.expiry / 1000000

unfoldable pub submit_create : Wiring → Chain → CreateCommand → String → Method String
submit_create w chain cmd pl_id = submit chain w.signer (
    create_tx pl_id cmd.receiver cmd.amount (expiry_unix cmd) (w.metadata_hash cmd.metadata)
      cmd.rules)

-- the part of `create` after the row is stored
unfoldable pub send_created : Wiring → Chain → CreateCommand → PayLinkRow → Method PayLinkRow
unfolding submit_create
send_created w chain cmd row =
    if w.settings.chain_submit_enabled
    then (do
      tx_hash ← submit_create w chain cmd row.pl_id
      let row' = record row { status = pending; chain_tx_hash = some tx_hash }
      save row'
      emit (paylink_created row.pl_id tx_hash)
      pure row')
    else pure row

-- `pl_id` is the value of `new_pl_id`
unfoldable pub create : Wiring → Chain → (pl_id : String) → CreateCommand → Method PayLinkRow
unfolding compliance_gate send_created
create w chain pl_id cmd = do
  compliance_gate w cmd pl_id
  raise_if (← on_session (query (λ d. is_some (lookup pl_id d.paylinks)))) integrity_error
  let row = new_row cmd pl_id
  save row
  emit (
      paylink_requested pl_id cmd.caller_addr cmd.receiver cmd.amount cmd.currency (expiry_unix cmd)
        cmd.usage)
  send_created w chain cmd row

-- a request: what the session has not committed at its end is dropped
abbrev pub perform : {A : Type 0} → Method A → Method A
perform m n =
    let (r, t) = m (record n { session = record n.session { working = n.session.stored } }) in
    (r, record t { session = record t.session { working = t.session.stored } })
