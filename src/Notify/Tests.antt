-- ===== src/Notify/Tests.antt =====
-- The deliveries of linkmint-backend/notification-service on concrete runs, and the theorems about
-- them at these runs.
use paylink.Prelude.{
  ℕ, ◌≡◌, refl, true, false, String, Table, ◌&&◌, none, some, List, [], ◌∷◌, ok, err, lookup,
  insert, string_eq, arith,
}
use paylink.Notify.Delivery.{
  queued, sent, DeliveryRow, ChannelLookup, DeliveryStore, is_final, run_once, next_countdown,
  mark_sent, mark_failed, mark_exhausted, send_failed,
}
use paylink.Notify.Preferences.{
  pref_channels, pref_events, Preferences, allows, enabled, all_on, clean, overlay,
  merge_preferences, UpdatePreferencesRequest, stored, effective, update_preferences, patched,
  update_preferences-allows,
}
use paylink.Notify.Retries.{
  Task, run_all, calls_for, IsAccounted, Rests, run_all-IsAccounted, run_all-final, run_all-Rests,
}

abbrev mail : DeliveryRow
mail = record {
  channel = "email";
  recipient = "a@b.c";
  event_kind = "paylink.verified";
  body = "paid";
  subject = none;
  dedupe_key = "k-1";
  event_data = [];
  status = queued;
  attempts = 0;
  last_error = none;
  next_retry_at = none;
  delivered_at = none;
}

abbrev outbox : DeliveryStore
outbox = record { rows = ("d-1", mail) ∷ []; sends = [] }

abbrev down : ChannelLookup
down channel = some (λ to body subject. err "timeout")

abbrev up : ChannelLookup
up channel = some (λ to body subject. ok "ref-1")

abbrev failing : ℕ → Task
failing now = record { channels = down; now = now; id = "d-1" }

abbrev working : ℕ → Task
working now = record { channels = up; now = now; id = "d-1" }

abbrev all_failing : List Task
all_failing = failing 1 ∷ failing 2 ∷ failing 3 ∷ failing 4 ∷ failing 5 ∷ failing 6 ∷ []

mail-IsAccounted : IsAccounted mail (calls_for "d-1" outbox.sends)
mail-IsAccounted = record {
  each_counted = refl;
  at_most_six = omega arith;
  room = omega arith;
  waiting = refl;
}

mail-found : lookup "d-1" outbox.rows ≡ some mail
unfolding lookup
mail-found = refl

second_wait : (run_once down 2 "d-1" (run_all (failing 1 ∷ []) outbox)).0.countdown ≡ some 120
unfolding run_once run_all lookup insert next_countdown mark_failed send_failed
second_wait = refl

exhausted_in_six : calls_for "d-1" (run_all all_failing outbox).sends ≡ 6
unfolding run_once run_all lookup insert next_countdown mark_failed mark_exhausted send_failed
exhausted_in_six = refl

run_all-IsAccounted_example :
    (row' : DeliveryRow) × (lookup "d-1" (run_all all_failing outbox).rows ≡ some row')
    × IsAccounted row' (calls_for "d-1" (run_all all_failing outbox).sends)
run_all-IsAccounted_example =
    run_all-IsAccounted all_failing outbox "d-1" mail mail-found mail-IsAccounted

run_all-final_example :
    (row' : DeliveryRow) × (lookup "d-1" (run_all all_failing outbox).rows ≡ some row')
    × (is_final row'.status ≡ true)
run_all-final_example =
    run_all-final all_failing outbox "d-1" mail mail-found mail-IsAccounted (omega arith)

abbrev delivered_mail : DeliveryRow
delivered_mail = record mail { status = sent; delivered_at = some 7 }

delivered_mail-found : lookup "d-1" (run_all (working 7 ∷ []) outbox).rows ≡ some delivered_mail
unfolding run_once run_all lookup insert mark_sent
delivered_mail-found = refl

run_all-Rests_example :
    Rests "d-1" delivered_mail
      (run_all (working 7 ∷ []) outbox)
      (run_all all_failing (run_all (working 7 ∷ []) outbox))
run_all-Rests_example =
    run_all-Rests all_failing (run_all (working 7 ∷ []) outbox) "d-1" delivered_mail
      delivered_mail-found refl

-- one address has turned text messages off; it now turns the mails off, and a flag that is unknown
abbrev settings : Table String Preferences
settings = ("0xaa", record { channels = ("sms", false) ∷ []; events = [] }) ∷ []

abbrev no_mail : UpdatePreferencesRequest
no_mail = record { channels = some (("email", false) ∷ ("fax", false) ∷ []); events = none }

test_no_mail :
    allows (effective "0xaa" (update_preferences "0xaa" no_mail settings)) "payment.failed" "email"
    ≡ false
unfolding allows effective update_preferences stored merge_preferences overlay clean all_on lookup
    insert
test_no_mail = refl

test_unknown :
    allows (effective "0xaa" (update_preferences "0xaa" no_mail settings)) "payment.failed" "fax"
    ≡ true
unfolding allows effective update_preferences stored merge_preferences overlay clean all_on lookup
    insert
test_unknown = refl

update_preferences-allows_example :
    allows (effective "0xaa" (update_preferences "0xaa" no_mail settings)) "payment.failed" "email"
    ≡ (patched pref_events none "payment.failed"
          (enabled "payment.failed" (effective "0xaa" settings).events)
        && patched pref_channels no_mail.channels "email"
            (enabled "email" (effective "0xaa" settings).channels))
update_preferences-allows_example =
    update_preferences-allows "0xaa" "0xaa" "payment.failed" "email" no_mail settings
