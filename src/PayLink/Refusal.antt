-- ===== src/PayLink/Refusal.antt =====
-- The compliance check of linkmint-backend/paylink-service/app/domain/service.py: which PayLinks
-- `_compliance_gate` refuses, and that they and no others are not created.
use paylink.Prelude.{
  ◌<◌, String, ◌≡◌, ◌≢◌, ◌⊎◌, inl, inr, ◌∙◌, ap, sym, refl, subst, Bool, true, false, none, some,
  is_some, arith, lookup, string_eq, ◌==◌, eq_iff_at, leb, Bool-cases, Option-cases, ok, err, List,
  [], ◌∷◌, lookup-insert,
}
use paylink.PayLink.Model.{pending, PayLinkRow, PayLinkEvent, paylink_requested, paylink_created}
use paylink.PayLink.Chain.{Chain, Node, kyc_required, create_tx}
use paylink.PayLink.Service.{
  CreateCommand, Wiring, ComplianceClient, compliance_gate, create, perform, new_row, expiry_unix,
  send_created, submit_create,
}
use paylink.PayLink.Course.{renewed, after, took, submit-cases}

-- When the creation of a PayLink is to be refused: the check is wired and enabled, the amount is
-- above the threshold, the caller is known, and the answer is to block, or there is none and the
-- service does not fail open.
pub record IsRefused (w : Wiring) (pl_id : String) (cmd : CreateCommand) : Type 0 where
  pub client : ComplianceClient
  pub user : String
  pub wired : w.compliance ≡ some client
  pub enabled : w.settings.compliance_check_enabled ≡ true
  pub above : w.settings.amount_kyc_threshold < cmd.amount
  pub caller : cmd.user_id ≡ some user
  pub named : user ≢ ""
  pub answer :
      (client user cmd.amount cmd.currency pl_id ≡ some "block")
      ⊎ ((client user cmd.amount cmd.currency pl_id ≡ none)
          × (w.settings.compliance_fail_open ≡ false))

module _ (w : Wiring) (pl_id : String) (cmd : CreateCommand) where
  stops : IsRefused w pl_id cmd → (n : Node) → compliance_gate w cmd pl_id n ≡ (err kyc_required, n)
  unfolding compliance_gate
  stops r n =
      let named : (r.user == "") ≡ false = elim (Bool-cases (r.user == "")) [
        | inr e ↦ e
        | inl e ↦ absurd (r.named ((eq_iff_at r.user "").0 e))
      ] in
      elim r.answer [
        | inl a ↦ ground (arith, r.wired, r.enabled, r.above, r.caller, named, a)
        | inr a ↦ ground (arith, r.wired, r.enabled, r.above, r.caller, named, a.0, a.1)
      ]

  passes : (n : Node) → IsRefused w pl_id cmd ⊎ (compliance_gate w cmd pl_id n ≡ (ok tt, n))
  unfolding compliance_gate
  passes n = elim (Option-cases w.compliance) [
    | inl a ↦ inr (ground (arith, a))
    | inr (client, a) ↦ elim (Bool-cases w.settings.compliance_check_enabled) [
      | inr b ↦ inr (ground (arith, a, b))
      | inl b ↦ elim (Bool-cases (leb cmd.amount w.settings.amount_kyc_threshold)) [
        | inl c ↦ inr (ground (arith, a, b, c))
        | inr c ↦ elim (Option-cases cmd.user_id) [
          | inl d ↦ inr (ground (arith, a, b, c, d))
          | inr (user, d) ↦ elim (Bool-cases (user == "")) [
            | inl e ↦ inr (ground (arith, a, b, c, d, e))
            | inr e ↦
                let named : user ≢ "" =
                  λ same. absurd (ground (arith, e, same, eq_iff_at user "")) in
                let refused : (client user cmd.amount cmd.currency pl_id ≡ some "block")
                      ⊎ ((client user cmd.amount cmd.currency pl_id ≡ none)
                          × (w.settings.compliance_fail_open ≡ false))
                    → IsRefused w pl_id cmd =
                  λ answer. record {
                    client = client;
                    user = user;
                    wired = a;
                    enabled = b;
                    above = ground (arith, c);
                    caller = d;
                    named = named;
                    answer = answer;
                  } in
                elim (Option-cases (client user cmd.amount cmd.currency pl_id)) [
                  | inl f ↦ elim (Bool-cases w.settings.compliance_fail_open) [
                    | inl g ↦ inr (ground (arith, a, b, c, d, e, f, g))
                    | inr g ↦ inl (refused (inr (f, g)))
                  ]
                  | inr (decision, f) ↦ elim (Bool-cases (decision == "block")) [
                    | inl g ↦
                        let block : decision ≡ "block" = (eq_iff_at decision "block").0 g in
                        inl (refused (inl (f ∙ ap some block)))
                    | inr g ↦ inr (ground (arith, a, b, c, d, e, f, g))
                  ]
                ]
          ]
        ]
      ]
    ]
  ]

  -- Who passes the check is refused no more.
  passed : (n : Node) → compliance_gate w cmd pl_id n ≡ (ok tt, n) → ¬ IsRefused w pl_id cmd
  passed n passing r = absurd (ground (arith, passing, stops r n))

-- whether a PayLink is stored
abbrev pub is_stored : String → Node → Bool
is_stored pl_id n = is_some (lookup pl_id n.session.stored.paylinks)

after-stored :
    (row : PayLinkRow) (events : List PayLinkEvent) (n : Node)
    → is_stored row.pl_id (after row events n) ≡ true
after-stored row events n = ground (
  arith,
  lookup-insert row.pl_id row.pl_id row n.session.stored.paylinks,
  eq_iff_at row.pl_id row.pl_id,
)

-- What happens after the row is stored keeps it.
send_created-stored :
    (w : Wiring) (chain : Chain) (cmd : CreateCommand) (row : PayLinkRow) (n : Node)
    → n.session.working ≡ n.session.stored
    → is_stored row.pl_id n ≡ true
    → is_stored row.pl_id (send_created w chain cmd row n).1 ≡ true
unfolding send_created submit_create
send_created-stored w chain cmd row n fresh stored =
    let keeps : Node → Type 0 = λ m. is_stored row.pl_id m ≡ true in
    let run = (send_created w chain cmd row n).1 in
    elim (Bool-cases w.settings.chain_submit_enabled) [
      | inr b ↦ let ran : run ≡ n = ground (arith, b) in subst keeps (sym ran) stored
      | inl b ↦
          elim (submit-cases chain w.signer
            (create_tx row.pl_id cmd.receiver cmd.amount (expiry_unix cmd)
              (w.metadata_hash cmd.metadata) cmd.rules)
            n) [
              | inl (e, c) ↦
                  let ran : run ≡ n = ground (arith, b, c) in subst keeps (sym ran) stored
              | inr (hash, tx, above, c) ↦
                  let row' = record row { status = pending; chain_tx_hash = some hash } in
                  let events = paylink_created row.pl_id hash ∷ [] in
                  let ran : run ≡ after row' events (took tx n) = ground (arith, b, c, fresh) in
                  subst keeps (sym ran) (after-stored row' events (took tx n))
            ]
    ]

create-stored :
    (w : Wiring) (chain : Chain) (pl_id : String) (cmd : CreateCommand) (n : Node)
    → compliance_gate w cmd pl_id (renewed n) ≡ (ok tt, renewed n)
    → is_stored pl_id (perform (create w chain pl_id cmd) n).1 ≡ true
unfolding create
create-stored w chain pl_id cmd n passing =
    let keeps : Node → Type 0 = λ m. is_stored pl_id m ≡ true in
    let run = (perform (create w chain pl_id cmd) n).1 in
    elim (Bool-cases (is_stored pl_id n)) [
      | inl b ↦ let ran : run ≡ renewed n = ground (arith, passing, b) in subst keeps (sym ran) b
      | inr b ↦
          let row = new_row cmd pl_id in
          let event =
            paylink_requested pl_id cmd.caller_addr cmd.receiver cmd.amount cmd.currency
              (expiry_unix cmd) cmd.usage in
          let mid = after row (event ∷ []) n in
          let ran : run ≡ renewed (send_created w chain cmd row mid).1 =
            ground (arith, passing, b) in
          subst keeps (sym ran)
            (send_created-stored w chain cmd row mid refl (after-stored row (event ∷ []) n))
    ]

-- Either the creation of a PayLink is to be refused, as the check is wired and enabled, the amount is
-- above the threshold, the caller is known, and compliance-risk answers to block, or does not answer
-- where the service does not fail open: then the request raises and the tables, the published events,
-- the nonces and the chain stay as they were. Or it is not to be refused, and then a PayLink is
-- stored under its identifier after the request, whatever the chain does.
pub create-IsRefused :
    (w : Wiring) (chain : Chain) (pl_id : String) (cmd : CreateCommand) (n : Node)
    → (IsRefused w pl_id cmd
        × (perform (create w chain pl_id cmd) n ≡ (err kyc_required, renewed n)))
      ⊎ ((¬ IsRefused w pl_id cmd)
          × (is_stored pl_id (perform (create w chain pl_id cmd) n).1 ≡ true))
unfolding create
create-IsRefused w chain pl_id cmd n = elim (passes w pl_id cmd (renewed n)) [
  | inl r ↦ inl (r, ground (arith, stops w pl_id cmd r (renewed n)))
  | inr p ↦ inr (passed w pl_id cmd (renewed n) p, create-stored w chain pl_id cmd n p)
]
