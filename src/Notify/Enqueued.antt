-- ===== src/Notify/Enqueued.antt =====
-- What linkmint-backend/notification-service enqueues for an event: the worker must see a row that
-- is committed.
use paylink.Prelude.{
  ◌≡◌, refl, ap, sym, ◌∙◌, ℕ, String, true, Option, none, some, List, [], ◌∷◌, ◌++◌, All,
  All-append, All-map, Table, lookup, insert, lookup-insert, string_eq, ◌==◌, eq_iff_at, arith,
  Bool-cases, Option-cases, inl, inr, ok, request, append-nil, subst,
}
use paylink.Notify.Template.{EventData}
use paylink.Notify.Delivery.{DeliveryRow, queued}
use paylink.Notify.Preferences.{Preferences, allows}
use paylink.Notify.Intake.{
  Channel, channel_value, TemplateRow, Recipient, address_for, State, Method, insert_inbox,
  InboxNotificationRow,
}
use paylink.Notify.Fanout.{
  Wiring, FreshIds, IntakeArgs, Payload, given, delivery_row, Outcome, wanted, put_wanted, deliver,
  collect, intake_inbox, post_wanted, write_inbox, inbox_wish, fan_out, intake, prefs_for, handle,
  event_of,
}
use paylink.Notify.Redelivery.{enqueue_all-publish}
use paylink.Notify.Twice.{intake-none, intake-some, handle-cases}
use paylink.Notify.Keys.{put_delivery-cases, with_delivery}

-- A row that waits for its first attempt, on a channel that the preferences allow for the event.
abbrev pub IsWaiting : Preferences → String → DeliveryRow → Type 0
IsWaiting prefs event_kind row =
    (row.status ≡ queued)
    × (row.attempts ≡ 0)
    × (row.event_kind ≡ event_kind)
    × (allows prefs event_kind row.channel ≡ true)

abbrev pub Waits : Preferences → String → Table String DeliveryRow → String → Type 0
Waits prefs event_kind rows id =
    (row : DeliveryRow) × (lookup id rows ≡ some row) × IsWaiting prefs event_kind row

insert-Waits :
    (prefs : Preferences) (event_kind id x : String) (row : DeliveryRow)
    (rows : Table String DeliveryRow)
    → lookup x rows ≡ none
    → Waits prefs event_kind rows id
    → Waits prefs event_kind (insert x row rows) id
insert-Waits prefs event_kind id x row rows h (old, found, waiting) = (
  old,
  (ground (arith, lookup-insert x id row rows, found, h, eq_iff_at x id, Bool-cases (x == id))),
  waiting,
)

wanted-IsWaiting :
    (w : Wiring) (prefs : Preferences) (event_kind user_id : String) (recipient : Recipient)
    (event_data : EventData) (t : Channel × TemplateRow) (row : DeliveryRow)
    → wanted w prefs event_kind user_id recipient event_data t ≡ some row
    → IsWaiting prefs event_kind row
unfolding wanted delivery_row
wanted-IsWaiting w prefs event_kind user_id recipient event_data (channel, template) row e =
    elim (Bool-cases (allows prefs event_kind (channel_value channel))) [
      | inr a ↦ absurd (ground (arith, a, e))
      | inl a ↦ elim (Option-cases (given (address_for recipient channel))) [
        | inl b ↦ absurd (ground (arith, a, b, e))
        | inr (address, b) ↦
            let same : delivery_row w event_kind user_id channel template address event_data ≡ row =
              ground (arith, a, b, e) in
            subst (IsWaiting prefs event_kind) same (refl, refl, refl, a)
      ]
    ]

module _ (prefs : Preferences) (event_kind : String) where
  -- A run that puts rows: what it will enqueue waits in what it leaves, and what waited still does.
  record Filed (run : Method Outcome) (s : State) : Type 0 where
    created : List String
    enqueued : List String
    final : State
    ran : run s ≡ (ok (created, enqueued), final)
    filed : All (Waits prefs event_kind final.working.deliveries) enqueued
    lasts :
        (id : String)
        → Waits prefs event_kind s.working.deliveries id
        → Waits prefs event_kind final.working.deliveries id
    same_stored : final.stored ≡ s.stored
    quiet : final.published ≡ s.published

  put_wanted-Filed :
      (id : String) (wish : Option DeliveryRow) (s : State)
      → ((row : DeliveryRow) → wish ≡ some row → IsWaiting prefs event_kind row)
      → Filed (put_wanted id wish) s
  unfolding put_wanted
  put_wanted-Filed id none s h = record {
    created = [];
    enqueued = [];
    final = s;
    ran = refl;
    filed = tt;
    lasts = λ x g. g;
    same_stored = refl;
    quiet = refl;
  }
  put_wanted-Filed id (some row) s h = elim (put_delivery-cases id row s) [
    | inl (other, e, r) ↦ record {
      created = other ∷ [];
      enqueued = [];
      final = s;
      ran = r;
      filed = tt;
      lasts = λ x g. g;
      same_stored = refl;
      quiet = refl;
    }
    | inr (inl (e, f, r)) ↦ record {
      created = id ∷ [];
      enqueued = id ∷ [];
      final = with_delivery id row s;
      ran = r;
      filed = (
        (
          row,
          (ground (arith, lookup-insert id id row s.working.deliveries, eq_iff_at id id)),
          h row refl,
        ),
        tt,
      );
      lasts = λ x g. insert-Waits prefs event_kind x id row s.working.deliveries f g;
      same_stored = refl;
      quiet = refl;
    }
    | inr (inr (e, r)) ↦ record {
      created = [];
      enqueued = [];
      final = s;
      ran = r;
      filed = tt;
      lasts = λ x g. g;
      same_stored = refl;
      quiet = refl;
    }
  ]

  collect-Filed :
      (round : Channel × TemplateRow → Method Outcome)
      → ((t : Channel × TemplateRow) (s : State) → Filed (round t) s)
      → (ts : List (Channel × TemplateRow)) (s : State) → Filed (collect round ts) s
  unfolding collect
  collect-Filed round files [] s = record {
    created = [];
    enqueued = [];
    final = s;
    ran = refl;
    filed = tt;
    lasts = λ x g. g;
    same_stored = refl;
    quiet = refl;
  }
  collect-Filed round files (t ∷ ts) s =
      let first = files t s in
      let rest = collect-Filed round files ts first.final in
      record {
        created = first.created ++ rest.created;
        enqueued = first.enqueued ++ rest.enqueued;
        final = rest.final;
        ran = ground (arith, first.ran, rest.ran);
        filed =
            All-append _ first.enqueued rest.enqueued
              (All-map _ _ rest.lasts first.enqueued first.filed) rest.filed;
        lasts = λ x g. rest.lasts x (first.lasts x g);
        same_stored = rest.same_stored ∙ first.same_stored;
        quiet = rest.quiet ∙ first.quiet;
      }

  -- What was enqueued between two states waits in what the second has stored.
  pub record Enqueues (s t : State) : Type 0 where
    pub enqueued : List String
    pub published : t.published ≡ s.published ++ enqueued
    pub waiting : All (Waits prefs event_kind t.stored.deliveries) enqueued

  quiet-Enqueues : (s t : State) → t.published ≡ s.published → Enqueues s t
  quiet-Enqueues s t e = record {
    enqueued = [];
    published = e ∙ sym (append-nil s.published);
    waiting = tt;
  }

  fan_out-Enqueues :
      (w : Wiring) (fresh : FreshIds) (user_id : String) (recipient : Recipient)
      (event_data : EventData) (posted : List String) (ts : List (Channel × TemplateRow))
      (s : State)
      → Enqueues s (fan_out w fresh prefs event_kind user_id recipient event_data posted ts s).1
  unfolding fan_out deliver
  fan_out-Enqueues w fresh user_id recipient event_data posted [] s = quiet-Enqueues s s refl
  fan_out-Enqueues w fresh user_id recipient event_data posted (t ∷ ts) s =
      let c =
        collect-Filed (deliver w fresh prefs event_kind user_id recipient event_data)
          (λ t s.
            put_wanted-Filed (fresh.delivery t.0) _ s
              (wanted-IsWaiting w prefs event_kind user_id recipient event_data t))
          (t ∷ ts) s in
      let u : State = record c.final { stored = c.final.working } in
      let ran : (fan_out w fresh prefs event_kind user_id recipient event_data posted (t ∷ ts) s).1
          ≡ record u { published = u.published ++ c.enqueued } =
        ground (arith, c.ran, enqueue_all-publish c.enqueued u) in
      subst (Enqueues s) (sym ran) (record {
        enqueued = c.enqueued;
        published = ap (λ ids. ids ++ c.enqueued) c.quiet;
        waiting = c.filed;
      })

-- What posting to the inbox answers and leaves.
record Quiet (run : Method (List String)) (s : State) : Type 0 where
  posted : List String
  final : State
  ran : run s ≡ (ok posted, final)
  quiet : final.published ≡ s.published

post_wanted-Quiet :
    (id : String) (wish : Option InboxNotificationRow) (s : State) → Quiet (post_wanted id wish) s
unfolding post_wanted write_inbox insert_inbox
post_wanted-Quiet id none s = record { posted = []; final = s; ran = refl; quiet = refl }
post_wanted-Quiet id (some row) s = record { posted = _; final = _; ran = refl; quiet = refl }

intake-Enqueues :
    (w : Wiring) (now : ℕ) (fresh : FreshIds) (event_kind : String) (event : IntakeArgs) (s : State)
    → Enqueues
        (prefs_for event.recipient_addr s.working)
        event_kind
        s
        (intake w now fresh event_kind event s).1
unfolding intake_inbox
intake-Enqueues w now fresh event_kind event s =
    let prefs = prefs_for event.recipient_addr s.working in
    let p = post_wanted-Quiet fresh.notification (inbox_wish w now prefs event_kind event) s in
    elim (Option-cases event.user_id) [
      | inl a ↦ quiet-Enqueues prefs event_kind s _ (
          ap (λ r. r.1.published)
            (intake-none w now fresh event_kind event s p.posted p.final a p.ran)
          ∙ p.quiet)
      | inr (user_id, a) ↦
          let ran = intake-some w now fresh event_kind event s p.posted p.final user_id a p.ran in
          let f =
            fan_out-Enqueues prefs event_kind w fresh user_id (w.resolve user_id event.contact)
              event.event_data p.posted _ p.final in
          subst (Enqueues prefs event_kind s) (sym (ap (λ r. r.1) ran)) (record {
            enqueued = f.enqueued;
            published = f.published ∙ ap (λ ids. ids ++ f.enqueued) p.quiet;
            waiting = f.waiting;
          })
    ]

-- Whatever an event comes to, each delivery that it enqueues is, in what is stored by then, a row
-- of that event that waits for its first attempt, on a channel that the preferences of the address
-- allow for the event.
pub handle-enqueues :
    (w : Wiring) (now : ℕ) (fresh : FreshIds) (name : String) (payload : Payload) (s : State)
    → let t = (request (handle w now fresh name payload) s).1 in
      let prefs = prefs_for (event_of w payload).recipient_addr s.stored in
      (ids : List String) × (t.published ≡ s.published ++ ids)
      × All (Waits prefs name t.stored.deliveries) ids
handle-enqueues w now fresh name payload s =
    let s0 : State = record s { working = s.stored } in
    elim (handle-cases w name payload) [
      | inl h ↦ ([], (ground (arith, h now fresh s0, append-nil s.published)), tt)
      | inr h ↦
          let e =
            subst (Enqueues (prefs_for (event_of w payload).recipient_addr s.stored) name s0)
              (sym (ap (λ r. r.1) (h now fresh s0)))
              (intake-Enqueues w now fresh name (event_of w payload) s0) in
          (e.enqueued, e.published, e.waiting)
    ]
