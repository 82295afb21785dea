-- ===== src/Notify/Fanout.antt =====
-- linkmint-backend/notification-service: `NotificationService` of app/domain/service.py and the
-- consumer of app/events/consumer.py, over the rows of Notify/Intake. A session runs alone, so the
-- branch of a lost race on a dedupe key is only taken when an identifier is already taken.
use Prim.Native.String.{◌++◌ as append}
use paylink.Prelude.{
  ℕ, String, Bool, true, false, not, ◌&&◌, if◌then◌else◌, Option, none, some, is_some, List, [],
  ◌∷◌, ◌++◌, any, string_eq, ◌==◌, lower, ⊤, pure, ◌>>=◌, ◌>>◌, raise_if, query, commit, publish,
}
use paylink.Notify.Template.{EventData, get, str, is_true, safe_data_keys, render}
use paylink.Notify.Delivery.{queued, DeliveryRow}
use paylink.Notify.Preferences.{Preferences, allows, default_preferences, effective}
use paylink.Notify.Intake.{
  Channel, email, sms, channel_value, InboxNotificationRow, TemplateRow, Recipient, address_for,
  NotifyDb, template_not_found, Method, find_delivery_by_dedupe, find_inbox_by_dedupe,
  insert_delivery, insert_inbox, resolve_for_event, subject_for, inbox_presentation,
}

pub record Contact : Type 0 where
  pub phone : Option String
  pub email_addr : Option String
  pub locale : Option String

-- `InlineRecipientResolver`: an empty text is no contact.
abbrev pub given : Option String → Option String
given none = none
given (some text) = if text == "" then none else some text

abbrev pub inline_recipient : Option Contact → Recipient
inline_recipient none = record { phone = none; email_addr = none; locale = none }
inline_recipient (some contact) = record {
  phone = given contact.phone;
  email_addr = given contact.email_addr;
  locale = given contact.locale;
}

-- what the service is wired with
pub record Wiring : Type 0 where
  pub fingerprint : EventData → String
  pub sha256 : String → String
  pub resolve : (user_id : String) → Option Contact → Recipient
  pub parse_uuid : String → Option String

pub record IntakeArgs : Type 0 where
  pub user_id : Option String
  pub recipient_addr : Option String
  pub event_data : EventData
  pub locale : Option String
  pub contact : Option Contact
  pub title : Option String
  pub body : Option String
  pub href : Option String

-- the identifiers that a call would make
pub record FreshIds : Type 0 where
  pub notification : String
  pub delivery : Channel → String

-- `a or b` of texts
abbrev pub or_text : Option String → String → String
or_text none other = other
or_text (some text) other = if text == "" then other else text

-- `body or default_body or None`
abbrev pub or_none : Option String → String → Option String
or_none text other = given (some (or_text text other))

-- `data.get("dedupe_id") or fingerprint(data)`, as it is printed
unfoldable pub dedupe_base : Wiring → EventData → String
dedupe_base w event_data =
    if is_true (get "dedupe_id" event_data)
    then str (get "dedupe_id" event_data)
    else w.fingerprint event_data

unfoldable pub dedupe_key : Wiring → String → String → Channel → EventData → String
unfolding dedupe_base
dedupe_key w event_kind user_id channel event_data = w.sha256 (
    append event_kind (
      append "|" (
        append user_id
          (append "|" (append (channel_value channel) (append "|" (dedupe_base w event_data)))))))

unfoldable pub inbox_row : Wiring → (now : ℕ) → String → String → IntakeArgs → InboxNotificationRow
unfolding dedupe_base inbox_presentation
inbox_row w now event_kind recipient_addr event =
    let (kind, default_title, default_body) = inbox_presentation event_kind event.event_data in
    record {
      recipient_addr = lower recipient_addr;
      kind = kind;
      title = or_text event.title default_title;
      body = or_none event.body default_body;
      href = event.href;
      event_kind = event_kind;
      dedupe_key = w.sha256 (
          append "inbox|" (
            append event_kind (
              append "|"
                (append (lower recipient_addr) (append "|" (dedupe_base w event.event_data))))));
      read = false;
      created_at = now;
      read_at = none;
    }

-- the identifiers of the notification, if there is one
abbrev pub as_list : Option String → List String
as_list none = []
as_list (some id) = id ∷ []

unfoldable pub write_inbox : String → InboxNotificationRow → Method (List String)
unfolding insert_inbox
write_inbox notification_id row = do
  inserted ← insert_inbox notification_id row
  existing ← query (find_inbox_by_dedupe row.dedupe_key)
  pure (if inserted then notification_id ∷ [] else as_list existing)

unfoldable pub delivery_row :
    Wiring → String → String → Channel → TemplateRow → (address : String) → EventData → DeliveryRow
unfolding dedupe_key
delivery_row w event_kind user_id channel template address event_data = record {
  channel = channel_value channel;
  recipient = address;
  event_kind = event_kind;
  body = render template.body event_data;
  subject = elim channel [ email ↦ some (subject_for event_kind event_data) | sms ↦ none ];
  dedupe_key = dedupe_key w event_kind user_id channel event_data;
  event_data = safe_data_keys event_data;
  status = queued;
  attempts = 0;
  last_error = none;
  next_retry_at = none;
  delivered_at = none;
}

-- what an intake reports of a delivery, and what it will enqueue
abbrev pub Outcome : Type 0
Outcome = List String × List String

unfoldable pub new_delivery : String → DeliveryRow → Method Outcome
unfolding insert_delivery
new_delivery delivery_id row = do
  inserted ← insert_delivery delivery_id row
  winner ← query (find_delivery_by_dedupe row.dedupe_key)
  pure (if inserted then (delivery_id ∷ [], delivery_id ∷ []) else (as_list winner, []))

-- a row that is not there yet, unless its identifier is
unfoldable pub put_delivery : String → DeliveryRow → Method Outcome
unfolding new_delivery
put_delivery delivery_id row = do
  existing ← query (find_delivery_by_dedupe row.dedupe_key)
  if is_some existing then pure (as_list existing, []) else new_delivery delivery_id row

-- the row that a template asks for: none when the preferences or a missing address say so
unfoldable pub wanted :
    Wiring
    → Preferences
    → String
    → String
    → Recipient
    → EventData
    → Channel × TemplateRow
    → Option DeliveryRow
unfolding delivery_row
wanted w prefs event_kind user_id recipient event_data (channel, template) =
    if not (allows prefs event_kind (channel_value channel))
    then none
    else elim (given (address_for recipient channel)) [
      | none ↦ none
      | some address ↦ some (delivery_row w event_kind user_id channel template address event_data)
    ]

-- what is done for the row of a template, if there is one
unfoldable pub put_wanted : String → Option DeliveryRow → Method Outcome
put_wanted id none = pure ([], [])
put_wanted id (some row) = put_delivery id row

-- one round of the loop over the templates
unfoldable pub deliver :
    Wiring
    → FreshIds
    → Preferences
    → String
    → String
    → Recipient
    → EventData
    → Channel × TemplateRow
    → Method Outcome
deliver w fresh prefs event_kind user_id recipient event_data t =
    put_wanted (fresh.delivery t.0) (wanted w prefs event_kind user_id recipient event_data t)

-- a loop that collects what its rounds report
unfoldable pub collect :
    (Channel × TemplateRow → Method Outcome) → List (Channel × TemplateRow) → Method Outcome
collect round [] = pure ([], [])
collect round (t ∷ ts) = do
  first ← round t
  rest ← collect round ts
  pure (first.0 ++ rest.0, first.1 ++ rest.1)

unfoldable pub enqueue_all : List String → Method ⊤
enqueue_all [] = pure tt
enqueue_all (id ∷ ids) = do publish id; enqueue_all ids

-- `if recipient_addr`
abbrev pub prefs_for : Option String → NotifyDb → Preferences
prefs_for addr d = elim (given addr) [
  | none ↦ default_preferences
  | some addr' ↦ effective (lower addr') d.preferences
]

-- the notification that an event asks for: none without an address, or when the preferences say so
unfoldable pub inbox_wish :
    Wiring → (now : ℕ) → Preferences → String → IntakeArgs → Option InboxNotificationRow
inbox_wish w now prefs event_kind event = elim (given event.recipient_addr) [
  | none ↦ none
  | some addr ↦
      if allows prefs event_kind "in_app"
      then some (inbox_row w now event_kind addr event)
      else none
]

unfoldable pub post_wanted : String → Option InboxNotificationRow → Method (List String)
post_wanted id none = pure []
post_wanted id (some row) = write_inbox id row

unfoldable pub intake_inbox :
    Wiring → (now : ℕ) → FreshIds → Preferences → String → IntakeArgs → Method (List String)
intake_inbox w now fresh prefs event_kind event =
    post_wanted fresh.notification (inbox_wish w now prefs event_kind event)

abbrev pub or_locale : Option String → Option String → Option String
or_locale a b = elim (given a) [ some locale ↦ some locale | none ↦ b ]

abbrev pub none_of {ℓ} : {A : Type ℓ} → List A → Bool
none_of [] = true
none_of (_ ∷ _) = false

-- the part of an intake that a user asks for
unfoldable pub fan_out :
    Wiring
    → FreshIds
    → Preferences
    → String
    → String
    → Recipient
    → EventData
    → (posted : List String) → List (Channel × TemplateRow)
    → Method (List String)
fan_out w fresh prefs event_kind user_id recipient event_data posted templates = do
  raise_if (none_of templates) template_not_found
  made ← collect (deliver w fresh prefs event_kind user_id recipient event_data) templates
  commit
  enqueue_all made.1
  pure (posted ++ made.0)

unfoldable pub intake : Wiring → (now : ℕ) → FreshIds → String → IntakeArgs → Method (List String)
intake w now fresh event_kind event = do
  prefs ← query (prefs_for event.recipient_addr)
  posted ← intake_inbox w now fresh prefs event_kind event
  elim event.user_id [
    | none ↦ do commit; pure posted
    | some user_id ↦ do
      let recipient = w.resolve user_id event.contact
      templates ← query (resolve_for_event event_kind (or_locale event.locale recipient.locale))
      fan_out w fresh prefs event_kind user_id recipient event.event_data posted templates
  ]

-- `KNOWN_EVENTS`
abbrev pub known_events : List String
known_events = "paylink.created" ∷ "paylink.verified" ∷ "paylink.cancelled" ∷ "payment.failed" ∷ []

pub record Payload : Type 0 where
  pub user_id : Option String
  pub recipient_addr : Option String
  pub event_data : EventData
  pub locale : Option String
  pub contact : Option Contact
  pub title : Option String
  pub body : Option String
  pub href : Option String

-- the user of a payload, if it has one that is a UUID
abbrev pub user_of : Wiring → Payload → Option String
user_of w payload = elim (given payload.user_id) [ none ↦ none | some raw ↦ w.parse_uuid raw ]

abbrev pub event_of : Wiring → Payload → IntakeArgs
event_of w payload = record {
  user_id = user_of w payload;
  recipient_addr = given payload.recipient_addr;
  event_data = payload.event_data;
  locale = payload.locale;
  contact = payload.contact;
  title = payload.title;
  body = payload.body;
  href = payload.href;
}

unfoldable pub handle : Wiring → (now : ℕ) → FreshIds → String → Payload → Method (List String)
handle w now fresh name payload =
    if not (any (λ known. known == name) known_events)
    then pure []
    else if not (is_some (given payload.recipient_addr)) && not (is_some (user_of w payload))
    then pure []
    else intake w now fresh name (event_of w payload)
