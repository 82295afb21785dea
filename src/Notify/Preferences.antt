-- ===== src/Notify/Preferences.antt =====
-- linkmint-backend/notification-service: app/domain/preferences.py, the two handlers of
-- app/api/v1/preferences.py, the preference rows of app/db/repository.py and their use by the
-- fan-out of app/domain/service.py. An address is in lower case, as each caller leaves it; the
-- row's identifier and times, and the identical second normalisation that only builds a reply, are
-- not modelled. The flags of a request are Booleans, so the ones of a row are.
use paylink.Prelude.{
  ◌≡◌, refl, String, Bool, true, false, Option, none, some, List, [], ◌∷◌, ◌&&◌, if◌then◌else◌, any,
  Table, lookup, insert, lookup-insert, string_eq, ◌==◌, eq_iff_at, arith, Bool-cases, Option-cases,
  ap, inl, inr,
}

abbrev pub Flags : Type 0
Flags = Table String Bool

abbrev pub pref_channels : List String
pref_channels = "in_app" ∷ "email" ∷ "sms" ∷ []

abbrev pub pref_events : List String
pref_events = "paylink.created" ∷ "paylink.verified" ∷ "paylink.cancelled" ∷ "payment.failed" ∷ []

pub record Preferences : Type 0 where
  pub channels : Flags
  pub events : Flags

-- `flags.get(key, True)`
abbrev pub enabled : String → Flags → Bool
enabled key flags = elim (lookup key flags) [ none ↦ true | some flag ↦ flag ]

unfoldable pub allows : Preferences → (event_kind channel : String) → Bool
allows prefs event_kind channel = enabled event_kind prefs.events && enabled channel prefs.channels

-- `dict.fromkeys(keys, True)`
unfoldable pub all_on : List String → Flags
all_on [] = []
all_on (key ∷ keys) = (key, true) ∷ all_on keys

abbrev pub default_preferences : Preferences
default_preferences = record { channels = all_on pref_channels; events = all_on pref_events }

-- `key in allowed`
abbrev pub known : List String → String → Bool
known allowed key = any (λ name. name == key) allowed

unfoldable pub clean : List String → Flags → Flags
clean allowed [] = []
clean allowed (entry ∷ entries) =
    let rest = clean allowed entries in if known allowed entry.0 then entry ∷ rest else rest

-- `{**base, **flags}`; a dict lists no key twice, so the order of the writes does not matter
unfoldable pub overlay : Flags → Flags → Flags
overlay base [] = base
overlay base (entry ∷ entries) = insert entry.0 entry.1 (overlay base entries)

unfoldable pub merge_preferences : (channels events : Flags) → Preferences
merge_preferences channels events = record {
  channels = overlay default_preferences.channels (clean pref_channels channels);
  events = overlay default_preferences.events (clean pref_events events);
}

-- `UpdatePreferencesRequest`
pub record UpdatePreferencesRequest : Type 0 where
  pub channels : Option Flags
  pub events : Option Flags

-- `flags or {}`
abbrev pub or_empty : Option Flags → Flags
or_empty flags = elim flags [ none ↦ [] | some given ↦ given ]

-- the maps of the row of an address, empty where it has none
unfoldable pub stored : String → Table String Preferences → Preferences
stored addr rows = elim (lookup addr rows) [
  | none ↦ record { channels = []; events = [] }
  | some row ↦ row
]

-- what the fan-out and `get_preferences` answer with
unfoldable pub effective : String → Table String Preferences → Preferences
effective addr rows = elim (lookup addr rows) [
  | none ↦ default_preferences
  | some row ↦ merge_preferences row.channels row.events
]

unfoldable pub update_preferences :
    String → UpdatePreferencesRequest → Table String Preferences → Table String Preferences
unfolding stored
update_preferences caller body rows =
    insert caller
      (merge_preferences (overlay (stored caller rows).channels (or_empty body.channels))
        (overlay (stored caller rows).events (or_empty body.events)))
      rows

-- What a patch makes of an answer: a flag that it sets under a name of the program replaces it.
abbrev pub patched : List String → Option Flags → String → Bool → Bool
patched names patch key old =
    if known names key
    then elim (lookup key (or_empty patch)) [ none ↦ old | some flag ↦ flag ]
    else old

lookup-overlay :
    (key : String) (base flags : Flags)
    → lookup key (overlay base flags)
      ≡ elim (lookup key flags) [ none ↦ lookup key base | some flag ↦ some flag ]
unfolding overlay lookup
lookup-overlay key base [] = refl
lookup-overlay key base (entry ∷ entries) = ground (
  arith,
  lookup-overlay key base entries,
  lookup-insert entry.0 key entry.1 (overlay base entries),
)

lookup-clean :
    (allowed : List String) (key : String) (flags : Flags)
    → lookup key (clean allowed flags) ≡ (if known allowed key then lookup key flags else none)
unfolding clean lookup
lookup-clean allowed key [] = ground arith
lookup-clean allowed key (entry ∷ entries) = elim (Bool-cases (entry.0 == key)) [
  | inl e ↦ ground (
    arith,
    e,
    lookup-clean allowed key entries,
    ap (known allowed) ((eq_iff_at entry.0 key).0 e),
    Bool-cases (known allowed key),
  )
  | inr e ↦ ground (arith, e, lookup-clean allowed key entries, Bool-cases (known allowed entry.0))
]

enabled-all_on : (key : String) (names : List String) → enabled key (all_on names) ≡ true
unfolding all_on lookup
enabled-all_on key [] = refl
enabled-all_on key (name ∷ names) = ground (arith, enabled-all_on key names)

-- a stored map, laid over the defaults, answers as itself under the names of the program
enabled-merged :
    (names : List String) (key : String) (flags : Flags)
    → enabled key (overlay (all_on names) (clean names flags))
      ≡ (if known names key then enabled key flags else true)
enabled-merged names key flags = ground (
  arith,
  lookup-overlay key (all_on names) (clean names flags),
  lookup-clean names key flags,
  enabled-all_on key names,
)

-- the answer of an address, by the map its row holds
effective-enabled :
    (addr key : String) (rows : Table String Preferences)
    → (enabled key (effective addr rows).channels
        ≡ (if known pref_channels key then enabled key (stored addr rows).channels else true))
      × (enabled key (effective addr rows).events
          ≡ (if known pref_events key then enabled key (stored addr rows).events else true))
unfolding effective stored merge_preferences lookup
effective-enabled addr key rows = elim (Option-cases (lookup addr rows)) [
  | inl e ↦ (
    (ground (arith, e, enabled-all_on key pref_channels)),
    (ground (arith, e, enabled-all_on key pref_events)),
  )
  | inr e ↦ (
    (ground (arith, e.1, enabled-merged pref_channels key e.0.channels)),
    (ground (arith, e.1, enabled-merged pref_events key e.0.events)),
  )
]

-- the maps that a request leaves in the row
stored-update :
    (caller : String) (body : UpdatePreferencesRequest) (rows : Table String Preferences)
    → stored caller (update_preferences caller body rows)
      ≡ merge_preferences
          (overlay (stored caller rows).channels (or_empty body.channels))
          (overlay (stored caller rows).events (or_empty body.events))
unfolding update_preferences stored
stored-update caller body rows = ground (
  arith,
  eq_iff_at caller caller,
  lookup-insert caller caller
      (merge_preferences (overlay (stored caller rows).channels (or_empty body.channels))
        (overlay (stored caller rows).events (or_empty body.events)))
      rows,
)

-- a map patched and laid over the defaults
enabled-patched :
    (names : List String) (key : String) (flags : Flags) (patch : Option Flags)
    → (if known names key
        then enabled key (overlay (all_on names) (clean names (overlay flags (or_empty patch))))
        else true)
      ≡ patched names patch key (if known names key then enabled key flags else true)
enabled-patched names key flags patch = ground (
  arith,
  enabled-merged names key (overlay flags (or_empty patch)),
  lookup-overlay key flags (or_empty patch),
  Option-cases (lookup key (or_empty patch)),
  Bool-cases (known names key),
)

update-effective :
    (caller key : String) (body : UpdatePreferencesRequest) (rows : Table String Preferences)
    → (enabled key (effective caller (update_preferences caller body rows)).channels
        ≡ patched pref_channels body.channels key (enabled key (effective caller rows).channels))
      × (enabled key (effective caller (update_preferences caller body rows)).events
          ≡ patched pref_events body.events key (enabled key (effective caller rows).events))
unfolding merge_preferences
update-effective caller key body rows =
    let before = effective-enabled caller key rows in
    let after = effective-enabled caller key (update_preferences caller body rows) in
    let held = stored-update caller body rows in
    (
      (ground (
        arith,
        before.0,
        after.0,
        ap (λ row. enabled key row.channels) held,
        enabled-patched pref_channels key (stored caller rows).channels body.channels,
      )),
      (ground (
        arith,
        before.1,
        after.1,
        ap (λ row. enabled key row.events) held,
        enabled-patched pref_events key (stored caller rows).events body.events,
      )),
    )

other-effective :
    (caller addr : String) (body : UpdatePreferencesRequest) (rows : Table String Preferences)
    → (caller == addr) ≡ false
    → effective addr (update_preferences caller body rows) ≡ effective addr rows
unfolding effective update_preferences
other-effective caller addr body rows e = ground (
  arith,
  e,
  lookup-insert caller addr
      (merge_preferences (overlay (stored caller rows).channels (or_empty body.channels))
        (overlay (stored caller rows).events (or_empty body.events)))
      rows,
)

-- After a request to change preferences, the fan-out delivers an event to its caller on a channel
-- exactly when both flags are on, where a flag is the one the request sets under a name of the
-- program and otherwise what it was before; for every other address it decides as before.
pub update_preferences-allows :
    (caller addr event channel : String) (body : UpdatePreferencesRequest)
    (rows : Table String Preferences)
    → allows (effective addr (update_preferences caller body rows)) event channel ≡ (
        if caller == addr
        then patched pref_events body.events event (enabled event (effective caller rows).events)
          && patched pref_channels body.channels channel
              (enabled channel (effective caller rows).channels)
        else allows (effective addr rows) event channel)
unfolding allows
update_preferences-allows caller addr event channel body rows = elim (Bool-cases (caller == addr)) [
  | inl e ↦ ground (
    arith,
    e,
    ap (λ a. allows (effective a (update_preferences caller body rows)) event channel)
        ((eq_iff_at caller addr).0 e),
    (update-effective caller event body rows).1,
    (update-effective caller channel body rows).0,
  )
  | inr e ↦
      ground (
        arith,
        e,
        ap (λ prefs. allows prefs event channel) (other-effective caller addr body rows e),
      )
]
