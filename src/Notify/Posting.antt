-- ===== src/Notify/Posting.antt =====
-- The inbox notification of an event that linkmint-backend/notification-service handles twice.
use paylink.Prelude.{
  ◌≡◌, refl, ℕ, String, Option, none, some, is_some, List, [], ◌∷◌, lookup, insert, string_eq,
  arith, Bool-cases, Option-cases, inl, inr, ◌⊎◌, ok, subst,
}
use paylink.Notify.Preferences.{Preferences, allows}
use paylink.Notify.Intake.{InboxNotificationRow, State, Method, insert_inbox, find_by}
use paylink.Notify.Fanout.{
  Wiring, FreshIds, inbox_wish, post_wanted, IntakeArgs, given, inbox_row, write_inbox,
  intake_inbox,
}
use paylink.Notify.Keys.{Keeps, insert-Keeps, find_by-new}

abbrev pub noted : String → State → Option String
noted key s = find_by (λ row. row.dedupe_key) key s.working.inbox

abbrev pub Notes : State → State → Type 0
Notes s t = Keeps (λ row. row.dedupe_key) s.working.inbox t.working.inbox

-- What posting to the inbox reports and leaves, and that a later one reports the same.
pub record Posted (run again : Method (List String)) (s : State) : Type 0 where
  pub posted : List String
  pub final : State
  pub ran : run s ≡ (ok posted, final)
  pub grows : Notes s final
  pub kept : final ≡ record s { working = record s.working { inbox = final.working.inbox } }
  pub repeats : (t : State) → Notes final t → again t ≡ (ok posted, t)

write_inbox-found :
    (id other : String) (row : InboxNotificationRow) (s : State)
    → noted row.dedupe_key s ≡ some other
    → write_inbox id row s ≡ (ok (other ∷ []), s)
unfolding write_inbox insert_inbox
write_inbox-found id other row s e =
    ground (arith, e, Bool-cases (is_some (lookup id s.working.inbox)))

write_inbox-Posted :
    (id id' : String) (row row' : InboxNotificationRow) (s : State)
    → row.dedupe_key ≡ row'.dedupe_key
    → lookup id s.working.inbox ≡ none
    → Posted (write_inbox id row) (write_inbox id' row') s
unfolding write_inbox insert_inbox
write_inbox-Posted id id' row row' s k h = elim (Option-cases (noted row.dedupe_key s)) [
  | inr (other, e) ↦ record {
    posted = other ∷ [];
    final = s;
    ran = write_inbox-found id other row s e;
    grows = λ key x f. f;
    kept = refl;
    repeats =
        λ t g. write_inbox-found id' other row' t (g row'.dedupe_key other (ground (arith, k, e)));
  }
  | inl e ↦
      let final : State = record s {
        working = record s.working { inbox = insert id row s.working.inbox };
      } in
      record {
        posted = id ∷ [];
        final = final;
        ran = ground (arith, e, h);
        grows = insert-Keeps (λ row. row.dedupe_key) id row s.working.inbox h;
        kept = refl;
        repeats = λ t g. write_inbox-found id' id row' t (
            g row'.dedupe_key id (
              subst
                (λ key.
                  find_by (λ (r : InboxNotificationRow). r.dedupe_key) key
                    (insert id row s.working.inbox)
                  ≡ some id)
                k (find_by-new (λ row. row.dedupe_key) id row s.working.inbox h e)));
      }
]

module _ (w : Wiring) (now now' : ℕ) (fresh later : FreshIds) (prefs : Preferences)
    (event_kind : String) (event : IntakeArgs) where
  -- At two times an event asks for nothing, or for notifications under one key.
  inbox_wish-cases :
      ((inbox_wish w now prefs event_kind event ≡ none)
        × (inbox_wish w now' prefs event_kind event ≡ none))
      ⊎ ((row : InboxNotificationRow) × (row' : InboxNotificationRow) × (inbox_wish w now prefs
              event_kind event
            ≡ some row)
          × (inbox_wish w now' prefs event_kind event ≡ some row')
          × (row.dedupe_key ≡ row'.dedupe_key))
  unfolding inbox_wish inbox_row
  inbox_wish-cases = elim (Option-cases (given event.recipient_addr)) [
    | inl e ↦ inl ((ground (arith, e)), (ground (arith, e)))
    | inr (addr, e) ↦ elim (Bool-cases (allows prefs event_kind "in_app")) [
      | inr f ↦ inl ((ground (arith, e, f)), (ground (arith, e, f)))
      | inl f ↦ inr (
        inbox_row w now event_kind addr event,
        inbox_row w now' event_kind addr event,
        (ground (arith, e, f)),
        (ground (arith, e, f)),
        refl,
      )
    ]
  ]

  pub intake_inbox-Posted :
      (s : State)
      → lookup fresh.notification s.working.inbox ≡ none
      → Posted
          (intake_inbox w now fresh prefs event_kind event)
          (intake_inbox w now' later prefs event_kind event)
          s
  unfolding intake_inbox post_wanted
  intake_inbox-Posted s h = elim inbox_wish-cases [
    | inl (e, f) ↦ record {
      posted = [];
      final = s;
      ran = ground (arith, e);
      grows = λ key x g. g;
      kept = refl;
      repeats = λ t g. ground (arith, f);
    }
    | inr (row, row', e, f, k) ↦
        let p = write_inbox-Posted fresh.notification later.notification row row' s k h in
        record {
          posted = p.posted;
          final = p.final;
          ran = ground (arith, e, p.ran);
          grows = p.grows;
          kept = p.kept;
          repeats = λ t g. ground (arith, f, p.repeats t g);
        }
  ]
