-- ===== src/Notify/Twice.antt =====
-- A whole event handled twice by linkmint-backend/notification-service.
use paylink.Prelude.{
  ◌≡◌, refl, ap, sym, ◌∙◌, ℕ, String, false, not, ◌&&◌, Option, none, some, is_some, List, [], ◌∷◌,
  ◌++◌, Table, lookup, lookup-insert, string_eq, ◌==◌, any, arith, Bool-cases, Option-cases, inl,
  inr, ◌⊎◌, ok, subst, request,
}
use paylink.Notify.Template.{EventData}
use paylink.Notify.Delivery.{DeliveryRow}
use paylink.Notify.Preferences.{Preferences}
use paylink.Notify.Intake.{
  Channel, sms, email, TemplateRow, Recipient, NotifyDb, State, resolve_for_event, chosen,
  chosen_for, channel_value, list_active_templates_for_event,
}
use paylink.Notify.Fanout.{
  Wiring, FreshIds, IntakeArgs, Payload, given, intake_inbox, fan_out, intake, prefs_for, or_locale,
  event_of, user_of, known_events, handle, put_wanted, deliver,
}
use paylink.Notify.Keys.{Keeps, put_delivery-cases}
use paylink.Notify.Redelivery.{NoClash, fan_out-Fanned, committed}
use paylink.Notify.Posting.{intake_inbox-Posted}

-- The identifiers that a call would make are not in the tables.
pub record AreFree (fresh : FreshIds) (deliveries : Table String DeliveryRow) : Type 0 where
  pub by_sms : lookup (fresh.delivery sms) deliveries ≡ none
  pub by_email : lookup (fresh.delivery email) deliveries ≡ none
  pub apart : (fresh.delivery sms == fresh.delivery email) ≡ false

pub record IsFresh (fresh : FreshIds) (d : NotifyDb) : Type 0 where
  pub notification : lookup fresh.notification d.inbox ≡ none
  pub free : AreFree fresh d.deliveries

put_wanted-lookup :
    (id x : String) (wish : Option DeliveryRow) (s : State)
    → (id == x) ≡ false
    → lookup x s.working.deliveries ≡ none
    → lookup x (put_wanted id wish s).1.working.deliveries ≡ none
unfolding put_wanted
put_wanted-lookup id x none s a h = h
put_wanted-lookup id x (some row) s a h = elim (put_delivery-cases id row s) [
  | inl (other, e, r) ↦ ground (arith, r, h)
  | inr (inl (e, f, r)) ↦ ground (arith, r, a, h, lookup-insert id x row s.working.deliveries)
  | inr (inr (e, r)) ↦ ground (arith, r, h)
]

module _ (w : Wiring) (fresh later : FreshIds) (prefs : Preferences) (event_kind user_id : String)
    (recipient : Recipient) (event_data : EventData) where
  abbrev Clear : List (Channel × TemplateRow) → State → Type 0
  Clear = NoClash w fresh later prefs event_kind user_id recipient event_data

  append-Clear :
      (by_sms by_email : List (Channel × TemplateRow)) (s : State)
      → AreFree fresh s.working.deliveries
      → (by_sms ≡ []) ⊎ ((t : TemplateRow) × (by_sms ≡ (sms, t) ∷ []))
      → (by_email ≡ []) ⊎ ((t : TemplateRow) × (by_email ≡ (email, t) ∷ []))
      → Clear (by_sms ++ by_email) s
  unfolding deliver
  append-Clear l k s f (inl a) (inl b) = rw (a, b) tt
  append-Clear l k s f (inl a) (inr (u, b)) = rw (a, b) (f.by_email, tt)
  append-Clear l k s f (inr (t, a)) (inl b) = rw (a, b) (f.by_sms, tt)
  append-Clear l k s f (inr (t, a)) (inr (u, b)) =
      rw (a, b) (f.by_sms, (put_wanted-lookup _ _ _ s f.apart f.by_email, tt))

chosen_for-cases :
    (locale : Option String) (rows : List TemplateRow) (channel : Channel)
    → (chosen_for locale rows channel ≡ [])
      ⊎ ((t : TemplateRow) × (chosen_for locale rows channel ≡ (channel, t) ∷ []))
chosen_for-cases locale rows channel =
    elim (Option-cases (chosen locale (channel_value channel) rows)) [
      | inl a ↦ inl (ground (arith, a))
      | inr (t, a) ↦ inr (t, (ground (arith, a)))
    ]

module _ (w : Wiring) (now : ℕ) (fresh : FreshIds) (event_kind : String) (event : IntakeArgs)
    (s : State) (posted : List String) (final : State) where
  pub intake-none :
      event.user_id ≡ none
      → intake_inbox w now fresh (prefs_for event.recipient_addr s.working) event_kind event s
        ≡ (ok posted, final)
      → intake w now fresh event_kind event s ≡ (ok posted, record final { stored = final.working })
  unfolding intake
  intake-none a ran = ground (arith, a, ran)

  pub intake-some :
      (user_id : String)
      → event.user_id ≡ some user_id
      → intake_inbox w now fresh (prefs_for event.recipient_addr s.working) event_kind event s
        ≡ (ok posted, final)
      → let recipient = w.resolve user_id event.contact in
        intake w now fresh event_kind event s
        ≡ fan_out w fresh
            (prefs_for event.recipient_addr s.working)
            event_kind
            user_id
            recipient
            event.event_data
            posted
            (resolve_for_event event_kind (or_locale event.locale recipient.locale) final.working)
            final
  unfolding intake
  intake-some user_id a ran = ground (arith, a, ran)

prefs_for-same :
    (addr : Option String) (d e : NotifyDb)
    → d.preferences ≡ e.preferences
    → prefs_for addr d ≡ prefs_for addr e
prefs_for-same addr d e h = ap (λ table. prefs_for addr (record d { preferences = table })) h

resolve_for_event-same :
    (event_kind : String) (locale : Option String) (d e : NotifyDb)
    → d.templates ≡ e.templates
    → resolve_for_event event_kind locale d ≡ resolve_for_event event_kind locale e
unfolding resolve_for_event list_active_templates_for_event
resolve_for_event-same event_kind locale d e h =
    ap (λ rows. resolve_for_event event_kind locale (record d { templates = rows })) h

module _ (w : Wiring) (now now' : ℕ) (fresh later : FreshIds) (event_kind : String)
    (event : IntakeArgs) where
  -- An intake that went through, and a later one on what it left.
  pub record Repeated (s : State) (ids : List String) : Type 0 where
    pub final : State
    pub ran : intake w now fresh event_kind event s ≡ (ok ids, final)
    pub settled : final.stored ≡ final.working
    pub again : intake w now' later event_kind event final ≡ (ok ids, final)

  none-Repeated :
      (s : State) (ids : List String)
      → IsFresh fresh s.working
      → event.user_id ≡ none
      → (intake w now fresh event_kind event s).0 ≡ ok ids
      → Repeated s ids
  none-Repeated s ids f a e =
      let prefs = prefs_for event.recipient_addr s.working in
      let p = intake_inbox-Posted w now now' fresh later prefs event_kind event s f.notification in
      let t : State = record p.final { stored = p.final.working } in
      let run = intake-none w now fresh event_kind event s p.posted p.final a p.ran in
      let same : p.posted ≡ ids = ground (arith, e, run) in
      let prefs_same =
        prefs_for-same event.recipient_addr p.final.working s.working
          (ap (λ (u : State). u.working.preferences) p.kept) in
      record {
        final = t;
        ran = run ∙ ap (λ posted. (ok posted, t)) same;
        settled = refl;
        again =
            intake-none w now' later event_kind event t p.posted t a (
              ap (λ prefs. intake_inbox w now' later prefs event_kind event t) prefs_same
              ∙ p.repeats t (λ key x g. g))
            ∙ ap (λ posted. (ok posted, t)) same;
      }

  some-Repeated :
      (s : State) (ids : List String) (user_id : String)
      → IsFresh fresh s.working
      → event.user_id ≡ some user_id
      → (intake w now fresh event_kind event s).0 ≡ ok ids
      → Repeated s ids
  unfolding resolve_for_event
  some-Repeated s ids user_id f a e =
      let prefs = prefs_for event.recipient_addr s.working in
      let p = intake_inbox-Posted w now now' fresh later prefs event_kind event s f.notification in
      let recipient = w.resolve user_id event.contact in
      let locale = or_locale event.locale recipient.locale in
      let ts = resolve_for_event event_kind locale p.final.working in
      let run = intake-some w now fresh event_kind event s p.posted p.final user_id a p.ran in
      let rows = list_active_templates_for_event event_kind p.final.working in
      let clear =
        append-Clear w fresh later prefs event_kind user_id recipient event.event_data
          (chosen_for locale rows sms) (chosen_for locale rows email) p.final
          (subst (AreFree fresh) (sym (ap (λ (u : State). u.working.deliveries) p.kept)) f.free)
          (chosen_for-cases locale rows sms) (chosen_for-cases locale rows email) in
      let fan =
        fan_out-Fanned w fresh later prefs event_kind user_id recipient event.event_data p.posted ts
          p.final ids clear (sym (ap (λ r. r.0) run) ∙ e) in
      let t = committed fan.final fan.enqueued in
      let prefs_same = prefs_for-same event.recipient_addr t.working s.working (
        ap (λ (u : State). u.working.preferences) fan.kept
        ∙ ap (λ (u : State). u.working.preferences) p.kept) in
      let ts_same =
        resolve_for_event-same event_kind locale t.working p.final.working
          (ap (λ (u : State). u.working.templates) fan.kept) in
      let notes =
        subst (λ inbox. Keeps (λ row. row.dedupe_key) p.final.working.inbox inbox)
          (sym (ap (λ (u : State). u.working.inbox) fan.kept)) (λ key x g. g) in
      record {
        final = t;
        ran = run ∙ fan.ran;
        settled = refl;
        again =
            intake-some w now' later event_kind event t p.posted t user_id a (
              ap (λ prefs. intake_inbox w now' later prefs event_kind event t) prefs_same
              ∙ p.repeats t notes)
            ∙ ap
                (λ prefs.
                  fan_out w later prefs event_kind user_id recipient event.event_data p.posted
                    (resolve_for_event event_kind locale t.working) t)
                prefs_same
            ∙ ap
                (λ ts.
                  fan_out w later prefs event_kind user_id recipient event.event_data p.posted ts t)
                ts_same
            ∙ fan.repeats t (λ key x g. g) refl;
      }

  intake-Repeated :
      (s : State) (ids : List String)
      → IsFresh fresh s.working
      → (intake w now fresh event_kind event s).0 ≡ ok ids
      → Repeated s ids
  intake-Repeated s ids f e = elim (Option-cases event.user_id) [
    | inl a ↦ none-Repeated s ids f a e
    | inr (user_id, a) ↦ some-Repeated s ids user_id f a e
  ]

-- A payload is ignored, or it is an intake.
pub handle-cases :
    (w : Wiring) (name : String) (payload : Payload)
    → ((now : ℕ) (fresh : FreshIds) (s : State) → handle w now fresh name payload s ≡ (ok [], s))
      ⊎ ((now : ℕ) (fresh : FreshIds) (s : State)
          → handle w now fresh name payload s ≡ intake w now fresh name (event_of w payload) s)
unfolding handle
handle-cases w name payload = elim (Bool-cases (not (any (λ known. known == name) known_events))) [
  | inl a ↦ inl (λ now fresh s. ground (arith, a))
  | inr a ↦
      elim (Bool-cases
        (not (is_some (given payload.recipient_addr)) && not (is_some (user_of w payload)))) [
          | inl b ↦ inl (λ now fresh s. ground (arith, a, b))
          | inr b ↦ inr (λ now fresh s. ground (arith, a, b))
        ]
]

-- An event that was handled without an error, with identifiers that were free, and is delivered
-- again, at another time and with other identifiers, is answered with the same deliveries and
-- notifications; nothing is stored and nothing enqueued.
pub handle_twice :
    (w : Wiring) (now now' : ℕ) (fresh later : FreshIds) (name : String) (payload : Payload)
    (s : State) (ids : List String)
    → IsFresh fresh s.stored
    → (request (handle w now fresh name payload) s).0 ≡ ok ids
    → let t = (request (handle w now fresh name payload) s).1 in
      request (handle w now' later name payload) t ≡ (ok ids, t)
handle_twice w now now' fresh later name payload s ids f e =
    let s0 : State = record s { working = s.stored } in
    elim (handle-cases w name payload) [
      | inl h ↦
          let t : State = (request (handle w now fresh name payload) s).1 in
          ground (arith, e, h now fresh s0, h now' later t)
      | inr h ↦
          let r =
            intake-Repeated w now now' fresh later name (event_of w payload) s0 ids f
              (sym (ap (λ r. r.0) (h now fresh s0)) ∙ e) in
          let ran = h now fresh s0 ∙ r.ran in
          ground (arith, ran, r.settled, r.again, h now' later r.final)
    ]
