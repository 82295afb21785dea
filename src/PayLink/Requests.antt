-- ===== src/PayLink/Requests.antt =====
-- Creation of a PayLink in app/domain/service.py of linkmint-backend/paylink-service.
use paylink.Prelude.{
  String, ◌≡◌, ◌⊎◌, inl, inr, refl, some, [], ◌∷◌, arith, ok, err, Option-cases, Bool-cases, lookup,
  lookup-insert, string_eq, eq_iff_at, is_some, ◌∙◌,
}
use paylink.PayLink.Model.{created, pending, PayLinkRow, paylink_requested, paylink_created}
use paylink.PayLink.Chain.{kyc_required, create_tx, Chain, Node}
use paylink.PayLink.Service.{
  CreateCommand, Wiring, gated, compliance_gate, refuses, submit_create, send_created, create,
  new_row, expiry_unix, perform,
}
use paylink.PayLink.Lifecycle.{submitting, adding, changing}
use paylink.PayLink.Course.{
  Course, after, renewed, idle, submit-cases, unmoved, ended, followed, took, signed_step, becomes,
}

send_created-Course :
    (w : Wiring) (chain : Chain) (cmd : CreateCommand) (row : PayLinkRow) (n : Node)
    → n.session.working ≡ n.session.stored
    → lookup row.pl_id n.session.stored.paylinks ≡ some row
    → row.status ≡ created
    → Course n (send_created w chain cmd row n).1
unfolding send_created submit_create
send_created-Course w chain cmd row n fresh found status =
    elim (Bool-cases w.settings.chain_submit_enabled) [
      | inr b ↦ becomes {m' = n} (ground (arith, b)) unmoved
      | inl b ↦
          elim (submit-cases chain w.signer
            (create_tx row.pl_id cmd.receiver cmd.amount (expiry_unix cmd)
              (w.metadata_hash cmd.metadata) cmd.rules)
            n) [
              | inl (e, c) ↦ becomes {m' = n} (ground (arith, b, c)) unmoved
              | inr (hash, tx, above, c) ↦
                  let row' = record row { status = pending; chain_tx_hash = some hash } in
                  let events = paylink_created row.pl_id hash ∷ [] in
                  becomes {m' = after row' events (took tx n)} (ground (arith, b, c, fresh)) (
                    signed_step tx row' events above
                      (changing row row' events found (submitting hash status refl) refl))
            ]
    ]

compliance_gate-cases :
    (w : Wiring) (cmd : CreateCommand) (pl_id : String) (n : Node)
    → (compliance_gate w cmd pl_id n ≡ (err kyc_required, n))
      ⊎ (compliance_gate w cmd pl_id n ≡ (ok tt, n))
unfolding compliance_gate
compliance_gate-cases w cmd pl_id n = elim (Option-cases (gated w cmd)) [
  | inl e ↦ inr (ground (arith, e))
  | inr ((client, user), e) ↦
      elim (Bool-cases (refuses w.settings (client user cmd.amount cmd.currency pl_id))) [
        | inl b ↦ inl (ground (arith, e, b))
        | inr b ↦ inr (ground (arith, e, b))
      ]
]

pub create-Course :
    (w : Wiring) (chain : Chain) (pl_id : String) (cmd : CreateCommand) (n : Node)
    → Course n (perform (create w chain pl_id cmd) n).1
unfolding create
create-Course w chain pl_id cmd n = elim (compliance_gate-cases w cmd pl_id (renewed n)) [
  | inl g ↦ becomes {m' = renewed n} (ground (arith, g)) idle
  | inr g ↦ elim (Bool-cases (is_some (lookup pl_id n.session.stored.paylinks))) [
    | inl b ↦ becomes {m' = renewed n} (ground (arith, g, b)) idle
    | inr b ↦
        let row = new_row cmd pl_id in
        let event =
          paylink_requested pl_id cmd.caller_addr cmd.receiver cmd.amount cmd.currency
            (expiry_unix cmd) cmd.usage in
        let mid = after row (event ∷ []) n in
        let rest = send_created w chain cmd row mid in
        becomes {m' = renewed rest.1} (ground (arith, g, b)) (
          ended (
            followed row (event ∷ []) (adding row event (ground (arith, b)) refl refl refl refl) (
              send_created-Course w chain cmd row mid refl
                (lookup-insert pl_id pl_id row n.session.stored.paylinks
                  ∙ ground (arith, eq_iff_at pl_id pl_id))
                refl)))
  ]
]
