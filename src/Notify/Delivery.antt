-- ===== src/Notify/Delivery.antt =====
-- linkmint-backend/notification-service: app/delivery/runner.py, app/delivery/backoff.py and the
-- store of app/db/repository.py. What `provider.send` does is a parameter of each attempt; that it
-- was called is recorded beside the table. Log lines are not modelled.
use Prim.Native.String.{◌++◌ as append}
use paylink.Prelude.{
  ℕ, zero, suc, get_elem?, ◌+◌, String, Bool, true, false, Option, none, some, List, [], ◌∷◌, ◌++◌,
  if◌then◌else◌, Result, ok, err, Table, lookup, insert, string_eq,
}
use paylink.Notify.Template.{EventData}

pub data DeliveryStatus : Type 0 where
  queued sent failed exhausted : DeliveryStatus

pub record DeliveryRow : Type 0 where
  pub channel : String
  pub recipient : String
  pub event_kind : String
  -- `payload`
  pub body : String
  pub subject : Option String
  pub dedupe_key : String
  pub event_data : EventData
  pub status : DeliveryStatus
  pub attempts : ℕ
  pub last_error : Option String
  pub next_retry_at : Option ℕ
  pub delivered_at : Option ℕ

-- `provider.send`: the provider's reference, or the text of a `SendError`
abbrev pub Provider : Type 0
Provider = (to body : String) → (subject : Option String) → Result String String

-- `channels.for_channel`
abbrev pub ChannelLookup : Type 0
ChannelLookup = String → Option Provider

pub record DeliveryStore : Type 0 where
  pub rows : Table String DeliveryRow
  -- the deliveries for which a provider was called, in order
  pub sends : List String

-- what a run reports; the status of a run that does nothing is `none`
pub record RunOutcome : Type 0 where
  pub status : Option DeliveryStatus
  pub should_retry : Bool
  pub countdown : Option ℕ

-- `BACKOFF_SCHEDULE_SECONDS`
abbrev pub backoff_schedule : List ℕ
backoff_schedule = 30 ∷ 120 ∷ 600 ∷ 3600 ∷ 21600 ∷ []

-- the entry before the number of attempts, if the schedule has it
unfoldable pub next_countdown : ℕ → Option ℕ
next_countdown zero = none
next_countdown (suc n) = get_elem? backoff_schedule n

-- a transaction of the store: nothing is written where there is no row
abbrev pub update : (DeliveryRow → DeliveryRow) → String → DeliveryStore → DeliveryStore
update f id s = elim (lookup id s.rows) [
  | none ↦ s
  | some row ↦ record s { rows = insert id (f row) s.rows }
]

-- the assignments to a row
abbrev pub as_sent : ℕ → DeliveryRow → DeliveryRow
as_sent now row = record row {
  status = sent;
  delivered_at = some now;
  next_retry_at = none;
  last_error = none;
}

abbrev pub as_failed : ℕ → String → ℕ → DeliveryRow → DeliveryRow
as_failed attempts last_error next_retry_at row = record row {
  status = failed;
  attempts = attempts;
  last_error = some last_error;
  next_retry_at = some next_retry_at;
}

abbrev pub as_exhausted : ℕ → String → DeliveryRow → DeliveryRow
as_exhausted attempts last_error row = record row {
  status = exhausted;
  attempts = attempts;
  last_error = some last_error;
  next_retry_at = none;
}

unfoldable pub mark_sent : ℕ → String → DeliveryStore → DeliveryStore
mark_sent now = update (as_sent now)

unfoldable pub mark_failed : ℕ → String → ℕ → String → DeliveryStore → DeliveryStore
mark_failed attempts last_error next_retry_at = update (as_failed attempts last_error next_retry_at)

unfoldable pub mark_exhausted : ℕ → String → String → DeliveryStore → DeliveryStore
mark_exhausted attempts last_error = update (as_exhausted attempts last_error)

abbrev pub is_final : DeliveryStatus → Bool
is_final sent = true
is_final exhausted = true
is_final _ = false

abbrev pub noop : RunOutcome
noop = record { status = none; should_retry = false; countdown = none }

abbrev pub ended : DeliveryStatus → RunOutcome
ended status = record { status = some status; should_retry = false; countdown = none }

-- `except SendError`
unfoldable pub send_failed :
    (now : ℕ) (id : String) (row : DeliveryRow) (message : String)
    → DeliveryStore
    → RunOutcome × DeliveryStore
unfolding mark_failed mark_exhausted next_countdown
send_failed now id row message s =
    let attempts = suc row.attempts in
    elim (next_countdown attempts) [
      | none ↦ (ended exhausted, mark_exhausted attempts message id s)
      | some countdown ↦ (
        record { status = some failed; should_retry = true; countdown = some countdown },
        mark_failed attempts message (now + countdown) id s,
      )
    ]

unfoldable pub run_once :
    (channels : ChannelLookup) (now : ℕ) (id : String) (s : DeliveryStore)
    → RunOutcome × DeliveryStore
unfolding mark_sent mark_exhausted send_failed
run_once channels now id s = elim (lookup id s.rows) [
  | none ↦ (noop, s)
  | some row ↦ if is_final row.status then (noop, s) else elim (channels row.channel) [
    | none ↦
        (ended exhausted, mark_exhausted row.attempts (append "no provider for " row.channel) id s)
    | some send ↦
        let s' = record s { sends = s.sends ++ id ∷ [] } in
        elim (send row.recipient row.body row.subject) [
          | err message ↦ send_failed now id row message s'
          | ok provider_ref ↦ (ended sent, mark_sent now id s')
        ]
  ]
]
