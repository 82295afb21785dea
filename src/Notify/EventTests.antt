-- ===== src/Notify/EventTests.antt =====
-- The intake and the inbox of linkmint-backend/notification-service on concrete events, and the
-- theorems about them at these.
use paylink.Prelude.{
  ◌≡◌, refl, String, true, false, none, some, List, [], ◌∷◌, ◌++◌, All, ok, lookup, insert,
  string_eq, request, lower, lower_char, strip, lstrip, rstrip, is_space, is_empty_text, contains,
  starts_with,
}
use paylink.Notify.Template.{
  EventData, shown, safe_data_keys, get, render, substitute, scan, filled, flush, starts_name,
  continues_name,
}
use paylink.Notify.Preferences.{effective, allows, all_on}
use paylink.Notify.Intake.{
  sms, email, InboxNotificationRow, TemplateRow, NotifyDb, State, find_by, insert_inbox,
  insert_delivery, inbox_presentation, amount_text, resolve_for_event,
  list_active_templates_for_event, snake, last_of, subject_for,
}
use paylink.Notify.Fanout.{
  Wiring, FreshIds, Payload, handle, intake, intake_inbox, inbox_wish, post_wanted, write_inbox,
  fan_out, collect, deliver, put_wanted, wanted, put_delivery, new_delivery, enqueue_all, inbox_row,
  dedupe_base, dedupe_key, delivery_row, prefs_for, event_of, inline_recipient,
}
use paylink.Notify.Enqueued.{Waits, handle-enqueues}
use paylink.Notify.Twice.{IsFresh, handle_twice}
use paylink.Notify.Inbox.{Read, one, every, perform_all, called_by, ReadBy, perform_all-read}

test_render :
    render "Paid ${amount} $cur, $$5 $gone $ ok"
      (("amount", shown "12" true true) ∷ ("cur", shown "KES" true true) ∷ [])
    ≡ "Paid 12 KES, $5 $gone $ ok"
unfolding render substitute scan filled flush starts_name continues_name lookup
test_render = refl

abbrev payment_data : EventData
payment_data =
    ("pl_id", shown "0x1" true true)
    ∷ ("amount", shown "12" true true)
    ∷ ("currency", shown "KES" true true)
    ∷ []

test_presentation :
    inbox_presentation "paylink.verified" payment_data
    ≡ ("success", "PayLink settled", "PayLink 0x1 for 12 KES was verified on-chain.")
unfolding inbox_presentation amount_text get lookup strip
test_presentation = refl

abbrev wiring : Wiring
wiring = record {
  fingerprint = λ event_data. "f";
  sha256 = λ text. text;
  resolve = λ user_id contact. inline_recipient contact;
  parse_uuid = λ text. some text;
}

abbrev template : TemplateRow
template = record {
  template_id = "sms.paylink_verified.en";
  channel = "sms";
  locale = "en";
  body = "PayLink $pl_id";
  active = true;
}

abbrev first_ids : FreshIds
first_ids = record {
  notification = "n-1";
  delivery = λ channel. elim channel [ sms ↦ "d-1" | email ↦ "d-2" ];
}

abbrev later_ids : FreshIds
later_ids = record {
  notification = "n-2";
  delivery = λ channel. elim channel [ sms ↦ "d-3" | email ↦ "d-4" ];
}

abbrev payload : Payload
payload = record {
  user_id = some "u-1";
  recipient_addr = some "0xAA";
  event_data = payment_data;
  locale = none;
  contact = some (record { phone = some "+254"; email_addr = none; locale = none });
  title = none;
  body = none;
  href = none;
}

abbrev store : NotifyDb
store = record { deliveries = []; inbox = []; preferences = []; templates = template ∷ [] }

abbrev session : State
session = record { stored = store; working = store; published = [] }

no_rows : IsFresh first_ids store
unfolding lookup
no_rows = record {
  notification = refl;
  free = record { by_sms = refl; by_email = refl; apart = refl };
}

test_handle :
    (request (handle wiring 100 first_ids "paylink.verified" payload) session).0
    ≡ ok ("n-1" ∷ "d-1" ∷ [])
unfolding handle intake intake_inbox inbox_wish post_wanted write_inbox insert_inbox fan_out collect
    deliver put_wanted wanted put_delivery new_delivery insert_delivery enqueue_all inbox_row
    inbox_presentation amount_text get strip lstrip rstrip is_space is_empty_text dedupe_base
    dedupe_key delivery_row safe_data_keys effective allows all_on lookup insert find_by
    resolve_for_event list_active_templates_for_event snake contains starts_with last_of render
    substitute scan filled flush starts_name continues_name lower lower_char subject_for
test_handle = refl

abbrev handled : State
handled = (request (handle wiring 100 first_ids "paylink.verified" payload) session).1

handle_twice_example :
    request (handle wiring 200 later_ids "paylink.verified" payload) handled
    ≡ (ok ("n-1" ∷ "d-1" ∷ []), handled)
handle_twice_example =
    handle_twice wiring 100 200 first_ids later_ids "paylink.verified" payload session
      ("n-1" ∷ "d-1" ∷ []) no_rows test_handle

handle-enqueues_example :
    (ids : List String) × (handled.published ≡ session.published ++ ids)
    × All
        (Waits
          (prefs_for (event_of wiring payload).recipient_addr store)
          "paylink.verified"
          handled.stored.deliveries)
        ids
handle-enqueues_example = handle-enqueues wiring 100 first_ids "paylink.verified" payload session

abbrev note : InboxNotificationRow
note = record {
  recipient_addr = "0xaa";
  kind = "info";
  title = "PayLink created";
  body = none;
  href = none;
  event_kind = "paylink.created";
  dedupe_key = "k";
  read = false;
  created_at = 5;
  read_at = none;
}

abbrev noted : State
noted = record {
  stored = record store { inbox = ("n-1", note) ∷ [] };
  working = store;
  published = [];
}

abbrev reads : List Read
reads = one 7 "0xbb" "n-1" ∷ every 8 "0xAA" ∷ one 9 "0xAA" "n-1" ∷ []

note_stored : lookup "n-1" noted.stored.inbox ≡ some note
unfolding lookup
note_stored = refl

perform_all-read_example :
    (row : InboxNotificationRow) × (lookup "n-1" (perform_all reads noted).stored.inbox ≡ some row)
    × ReadBy (called_by note.recipient_addr reads) note row
perform_all-read_example = perform_all-read reads noted "n-1" note note_stored
