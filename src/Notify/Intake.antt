-- ===== src/Notify/Intake.antt =====
-- linkmint-backend/notification-service: the intake of app/domain/service.py, the registry of
-- app/templating/registry.py, the recipients of app/recipients, the consumer of
-- app/events/consumer.py and the rows of app/db/repository.py that they use. Parameters are the
-- hashes `fingerprint` and `sha256`, the resolver, and `parse_uuid`, the user of a text if it is a
-- UUID. The values of `uuid.uuid4()` are arguments. What is enqueued is what the session publishes.
use Prim.Native.Char.{code}
use Prim.Native.String.{◌++◌ as append}
use paylink.Prelude.{
  ℕ, String, Bool, not, ◌&&◌, ◌||◌, if◌then◌else◌, Option, none, some, is_some, List, [], ◌∷◌, ◌++◌,
  select, nat_beq, Table, lookup, insert, string_eq, ◌==◌, strip, contains, Session, Exec, pure,
  ◌>>=◌, ◌>>◌, query, write,
}
use paylink.Notify.Template.{EventData, get, str, is_true, is_null, or_value, str_or_empty, render}
use paylink.Notify.Delivery.{DeliveryRow}
use paylink.Notify.Preferences.{Preferences}

pub data Channel : Type 0 where
  sms email : Channel

abbrev pub channel_value : Channel → String
channel_value sms = "sms"
channel_value email = "email"

pub record InboxNotificationRow : Type 0 where
  pub recipient_addr : String
  pub kind : String
  pub title : String
  pub body : Option String
  pub href : Option String
  pub event_kind : String
  pub dedupe_key : String
  pub read : Bool
  pub created_at : ℕ
  pub read_at : Option ℕ

pub record TemplateRow : Type 0 where
  pub template_id : String
  pub channel : String
  pub locale : String
  pub body : String
  pub active : Bool

pub record NotifyDb : Type 0 where
  pub deliveries : Table String DeliveryRow
  pub inbox : Table String InboxNotificationRow
  pub preferences : Table String Preferences
  pub templates : List TemplateRow

pub data NotifyError : Type 0 where
  template_not_found notification_not_found : NotifyError

abbrev pub State : Type 0
State = Session NotifyDb String

abbrev pub Method : Type 0 → Type 0
Method A = Exec NotifyError State A

-- the first identifier whose row has the key
module _ {ℓ} {Row : Type ℓ} (key_of : Row → String) where
  unfoldable pub find_by : (dedupe_key : String) → Table String Row → Option String
  find_by dedupe_key [] = none
  find_by dedupe_key (entry ∷ rows) =
      if key_of entry.1 == dedupe_key then some entry.0 else find_by dedupe_key rows

abbrev pub find_delivery_by_dedupe : String → NotifyDb → Option String
find_delivery_by_dedupe dedupe_key d = find_by (λ row. row.dedupe_key) dedupe_key d.deliveries

abbrev pub find_inbox_by_dedupe : String → NotifyDb → Option String
find_inbox_by_dedupe dedupe_key d = find_by (λ row. row.dedupe_key) dedupe_key d.inbox

-- The primary key and the unique index on the dedupe key refuse a second row.
unfoldable pub insert_delivery : String → DeliveryRow → Method Bool
insert_delivery delivery_id row = do
  taken ← query (λ d.
      is_some (lookup delivery_id d.deliveries)
      || is_some (find_delivery_by_dedupe row.dedupe_key d))
  write (λ d. if taken then d else record d { deliveries = insert delivery_id row d.deliveries })
  pure (not taken)

unfoldable pub insert_inbox : String → InboxNotificationRow → Method Bool
insert_inbox notification_id row = do
  taken ← query (λ d.
      is_some (lookup notification_id d.inbox) || is_some (find_inbox_by_dedupe row.dedupe_key d))
  write (λ d. if taken then d else record d { inbox = insert notification_id row d.inbox })
  pure (not taken)

-- `event_kind.replace(".", "_")`
unfoldable pub snake : String → String
snake String.[] = ""
snake (String.◌∷◌ c s) = String.◌∷◌ (if nat_beq (code c) 46 then "_" else c) (snake s)

-- The pattern is literal, since the code escapes what `LIKE` would read.
unfoldable pub list_active_templates_for_event : String → NotifyDb → List TemplateRow
unfolding snake contains
list_active_templates_for_event event_kind d =
    select
      (λ row. row.active && contains (append "." (append (snake event_kind) ".")) row.template_id)
      d.templates

-- The last row of a channel and locale, as the dict of them keeps it.
unfoldable pub last_of : (channel locale : String) → List TemplateRow → Option TemplateRow
last_of channel locale [] = none
last_of channel locale (row ∷ rows) =
    let rest = last_of channel locale rows in
    if is_some rest
    then rest
    else if row.channel == channel && row.locale == locale
    then some row
    else none

-- `locale or "en"`
abbrev pub or_default : Option String → String
or_default none = "en"
or_default (some locale) = if locale == "" then "en" else locale

abbrev pub chosen : Option String → String → List TemplateRow → Option TemplateRow
chosen locale channel rows = elim (last_of channel (or_default locale) rows) [
  | some row ↦ some row
  | none ↦ last_of channel "en" rows
]

abbrev pub chosen_for : Option String → List TemplateRow → Channel → List (Channel × TemplateRow)
chosen_for locale rows channel = elim (chosen locale (channel_value channel) rows) [
  | none ↦ []
  | some row ↦ (channel, row) ∷ []
]

unfoldable pub resolve_for_event : String → Option String → NotifyDb → List (Channel × TemplateRow)
unfolding list_active_templates_for_event last_of
resolve_for_event event_kind locale d =
    let rows = list_active_templates_for_event event_kind d in
    chosen_for locale rows sms ++ chosen_for locale rows email

abbrev pub email_subjects : Table String String
email_subjects =
    ("paylink.verified", "Your PayLink is verified")
    ∷ ("payment.failed", "Your payment could not be completed")
    ∷ []

unfoldable pub subject_for : String → EventData → String
subject_for event_kind event_data =
    render
      (elim (lookup event_kind email_subjects) [
        | none ↦ "LinkMint notification"
        | some subject ↦ subject
      ])
      event_data

pub record Recipient : Type 0 where
  pub phone : Option String
  pub email_addr : Option String
  pub locale : Option String

abbrev pub address_for : Recipient → Channel → Option String
address_for recipient sms = recipient.phone
address_for recipient email = recipient.email_addr

abbrev pub inbox_kind : Table String String
inbox_kind =
    ("paylink.created", "info")
    ∷ ("paylink.verified", "success")
    ∷ ("paylink.cancelled", "warning")
    ∷ ("payment.failed", "error")
    ∷ []

abbrev pub kind_for : String → String
kind_for event_kind = elim (lookup event_kind inbox_kind) [ none ↦ "info" | some kind ↦ kind ]

-- `f"{amount} {currency}".strip() if amount is not None else ""`
unfoldable pub amount_text : EventData → String
unfolding strip
amount_text event_data =
    if is_null (get "amount" event_data)
    then ""
    else strip (
        append (str (get "amount" event_data))
          (append " " (str_or_empty (get "currency" event_data))))

-- kind, title and body
unfoldable pub inbox_presentation : String → EventData → String × String × String
unfolding amount_text
inbox_presentation event_kind event_data =
    let pl = str_or_empty (or_value (get "pl_id" event_data) (get "paylink_id" event_data)) in
    let amt = amount_text event_data in
    if event_kind == "paylink.created"
    then (
      kind_for event_kind,
      "PayLink created",
      (if amt == ""
          then append "PayLink " (append pl " created.")
          else append "PayLink " (append pl (append " for " (append amt " is ready to share.")))),
    )
    else if event_kind == "paylink.verified"
    then (
      kind_for event_kind,
      "PayLink settled",
      (if amt == ""
          then append "PayLink " (append pl " verified.")
          else append "PayLink "
              (append pl (append " for " (append amt " was verified on-chain.")))),
    )
    else if event_kind == "paylink.cancelled"
    then (kind_for event_kind, "PayLink cancelled", append "PayLink " (append pl " was cancelled."))
    else if event_kind == "payment.failed"
    then (
      kind_for event_kind,
      "Payment failed",
      (let reason =
            if is_true (get "reason" event_data)
            then str (get "reason" event_data)
            else "unknown reason" in
          if amt == ""
          then append "A payment failed: " (append reason ".")
          else append "A payment of " (append amt (append " failed: " (append reason ".")))),
    )
    else (kind_for event_kind, event_kind, "")
