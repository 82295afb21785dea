-- ===== src/Notify/Inbox.antt =====
-- The inbox of linkmint-backend/notification-service: the reads of app/api/v1/inbox.py over
-- `list_inbox`, `mark_inbox_read` and `mark_all_inbox_read` of app/db/repository.py. A cursor is the
-- pair that it encodes, `none` where it is missing or malformed. The order of UUIDs in the database
-- is a parameter of the listing.
use paylink.Prelude.{
  ◌≡◌, refl, ap, ◌∙◌, subst, ℕ, suc, String, Bool, true, false, not, ◌&&◌, ◌||◌, if◌then◌else◌,
  Option, none, some, List, [], ◌∷◌, length, take, map, select, ltb, nat_beq, sort_by, Table,
  lookup, insert, lookup-insert, string_eq, ◌==◌, eq_iff_at, arith, Bool-cases, Option-cases, inl,
  inr, ◌⊎◌, lower, pure, raise, ◌>>=◌, ◌>>◌, query, write, commit, request,
}
use paylink.Notify.Intake.{InboxNotificationRow, NotifyDb, notification_not_found, State, Method}

abbrev pub InboxEntry : Type 0
InboxEntry = String × InboxNotificationRow

abbrev pub Cursor : Type 0
Cursor = ℕ × String

abbrev pub cursor_of : InboxEntry → Cursor
cursor_of entry = (entry.1.created_at, entry.0)

module _ (id_before : String → String → Bool) where
  -- `created_at < ts or created_at == ts and notification_id < nid`
  unfoldable pub is_older : Cursor → Cursor → Bool
  is_older a b = ltb a.0 b.0 || nat_beq a.0 b.0 && id_before a.1 b.1

  abbrev pub after_cursor : Option Cursor → InboxEntry → Bool
  after_cursor none entry = true
  after_cursor (some cursor) entry = is_older (cursor_of entry) cursor

  -- the rows of an address behind the cursor, newest first
  unfoldable pub inbox_of : String → Option Cursor → NotifyDb → List InboxEntry
  unfolding is_older
  inbox_of addr cursor d =
      sort_by (λ a b. is_older (cursor_of b) (cursor_of a))
        (select (λ entry. entry.1.recipient_addr == lower addr && after_cursor cursor entry)
          d.inbox)

  -- the cursor of the last row of a page
  abbrev pub last_cursor : List InboxEntry → Option Cursor
  last_cursor [] = none
  last_cursor (entry ∷ []) = some (cursor_of entry)
  last_cursor (entry ∷ other ∷ rest) = last_cursor (other ∷ rest)

  unfoldable pub list_inbox :
      (addr : String) (limit : ℕ) → Option Cursor → NotifyDb → List InboxEntry × Option Cursor
  unfolding inbox_of
  list_inbox addr limit cursor d =
      let rows = take (suc limit) (inbox_of addr cursor d) in
      if ltb limit (length rows)
      then (take limit rows, last_cursor (take limit rows))
      else (rows, none)

abbrev pub as_read : ℕ → InboxNotificationRow → InboxNotificationRow
as_read now row = record row { read = true; read_at = some now }

-- A row that is read already is left as it is.
unfoldable pub mark_inbox_read :
    (now : ℕ) (addr notification_id : String) → Method (Option InboxNotificationRow)
mark_inbox_read now addr notification_id = do
  found ← query (λ d. lookup notification_id d.inbox)
  elim found [
    | none ↦ pure none
    | some row ↦ if not (row.recipient_addr == lower addr) then pure none else do
      let row' = if row.read then row else as_read now row
      write (λ d. record d { inbox = insert notification_id row' d.inbox })
      commit
      pure (some row')
  ]

abbrev pub is_unread : String → InboxNotificationRow → Bool
is_unread addr row = row.recipient_addr == lower addr && not row.read

abbrev pub mark_if : ℕ → String → InboxEntry → InboxEntry
mark_if now addr entry = (entry.0, if is_unread addr entry.1 then as_read now entry.1 else entry.1)

unfoldable pub mark_all_inbox_read : (now : ℕ) (addr : String) → Method ℕ
mark_all_inbox_read now addr = do
  count ← query (λ d. length (select (λ entry. is_unread addr entry.1) d.inbox))
  write (λ d. record d { inbox = map (mark_if now addr) d.inbox })
  commit
  pure count

unfoldable pub mark_read : (now : ℕ) (caller notification_id : String) → Method InboxNotificationRow
unfolding mark_inbox_read
mark_read now caller notification_id = do
  found ← mark_inbox_read now caller notification_id
  elim found [ none ↦ raise notification_not_found | some row ↦ pure row ]

pub data Read : Type 0 where
  one : (now : ℕ) (caller notification_id : String) → Read
  every : (now : ℕ) (caller : String) → Read

unfoldable pub perform : Read → State → State
perform (one now caller notification_id) s = (request (mark_read now caller notification_id) s).1
perform (every now caller) s = (request (mark_all_inbox_read now caller) s).1

unfoldable pub perform_all : List Read → State → State
perform_all [] s = s
perform_all (call ∷ calls) s = perform_all calls (perform call s)

abbrev pub caller_of : Read → String
caller_of (one now caller notification_id) = caller
caller_of (every now caller) = caller

-- whether an address is among the callers
unfoldable pub called_by : String → List Read → Bool
called_by addr [] = false
called_by addr (call ∷ calls) = addr == lower (caller_of call) || called_by addr calls

-- A notification stays as it is, or it was unread and its recipient was among the callers.
abbrev pub ReadBy : Bool → InboxNotificationRow → InboxNotificationRow → Type 0
ReadBy called row row' =
    (row' ≡ row) ⊎ ((called ≡ true) × (row.read ≡ false) × ((now : ℕ) × (row' ≡ as_read now row)))

lookup-map :
    (now : ℕ) (addr id : String) (rows : Table String InboxNotificationRow)
    → lookup id (map (mark_if now addr) rows) ≡ elim (lookup id rows) [
      | none ↦ none
      | some row ↦ some (if is_unread addr row then as_read now row else row)
    ]
unfolding lookup
lookup-map now addr id [] = ground arith
lookup-map now addr id (entry ∷ rows) =
    ground (arith, lookup-map now addr id rows, Bool-cases (entry.0 == id))

perform-ReadBy :
    (call : Read) (s : State) (id : String) (row : InboxNotificationRow)
    → lookup id s.stored.inbox ≡ some row
    → (row' : InboxNotificationRow) × (lookup id (perform call s).stored.inbox ≡ some row')
      × ReadBy (row.recipient_addr == lower (caller_of call)) row row'
unfolding perform mark_read mark_inbox_read mark_all_inbox_read
perform-ReadBy (every now caller) s id row e =
    let mapped = lookup-map now caller id s.stored.inbox in
    elim (Bool-cases (is_unread caller row)) [
      | inl a ↦ (
        as_read now row,
        (ground (arith, a, e, mapped)),
        inr ((ground (arith, a)), (ground (arith, a)), (now, refl)),
      )
      | inr a ↦ (row, (ground (arith, a, e, mapped)), inl refl)
    ]
perform-ReadBy (one now caller other) s id row e =
    elim (Option-cases (lookup other s.stored.inbox)) [
      | inl a ↦ (row, (ground (arith, a, e)), inl refl)
      | inr (found, a) ↦ elim (Bool-cases (found.recipient_addr == lower caller)) [
        | inr b ↦ (row, (ground (arith, a, b, e)), inl refl)
        | inl b ↦
            let kept = lookup-insert other id found s.stored.inbox in
            let marked = lookup-insert other id (as_read now found) s.stored.inbox in
            elim (Bool-cases (other == id)) [
              | inr c ↦
                  (row, (ground (arith, a, b, c, e, kept, marked, Bool-cases found.read)), inl refl)
              | inl c ↦
                  let same : found ≡ row = ground (arith, a, c, e, eq_iff_at other id) in
                  elim (Bool-cases found.read) [
                    | inl d ↦ (row, (ground (arith, a, b, c, d, same, kept)), inl refl)
                    | inr d ↦ (
                      as_read now row,
                      (ground (arith, a, b, c, d, same, marked)),
                      inr ((ground (arith, b, same)), (ground (arith, d, same)), (now, refl)),
                    )
                  ]
            ]
      ]
    ]

-- A row that is read, or whose recipient does not call, stays; an unread one may be read, once, by
-- a call of its recipient.
ReadBy-trans :
    (a b : Bool) (row row' row'' : InboxNotificationRow)
    → ReadBy a row row'
    → ReadBy b row' row''
    → ReadBy (a || b) row row''
ReadBy-trans a b row row' row'' (inl e) (inl f) = inl (f ∙ e)
ReadBy-trans a b row row' row'' (inl e) (inr (c, u, (now, f))) =
    inr ((ground (arith, c, Bool-cases a)), (ground (arith, e, u)), (now, (ground (arith, e, f))))
ReadBy-trans a b row row' row'' (inr (c, u, (now, e))) (inl f) =
    inr ((ground (arith, c)), u, (now, f ∙ e))
ReadBy-trans a b row row' row'' (inr (c, u, (now, e))) (inr (d, v, (later, f))) =
    absurd (ground (arith, e, v))

-- Over any calls that mark notifications, a stored notification stays as it is, or it was unread, its
-- recipient is among the callers, and all that changed is that it was read at some time.
pub perform_all-read :
    (calls : List Read) (s : State) (id : String) (row : InboxNotificationRow)
    → lookup id s.stored.inbox ≡ some row
    → (row' : InboxNotificationRow) × (lookup id (perform_all calls s).stored.inbox ≡ some row')
      × ReadBy (called_by row.recipient_addr calls) row row'
unfolding perform_all called_by
perform_all-read [] s id row e = (row, e, inl refl)
perform_all-read (call ∷ calls) s id row e =
    let (row', found, r) = perform-ReadBy call s id row e in
    let (row'', found', r') = perform_all-read calls (perform call s) id row' found in
    let same : row'.recipient_addr ≡ row.recipient_addr = elim r [
      | inl f ↦ ap (λ x. x.recipient_addr) f
      | inr (c, u, (now, f)) ↦ ap (λ x. x.recipient_addr) f
    ] in
    (
      row'',
      found',
      ReadBy-trans _ _ row row' row'' r
          (subst (λ addr. ReadBy (called_by addr calls) row' row'') same r'),
    )
