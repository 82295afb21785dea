-- ===== src/Ledger/Store.antt =====
-- linkmint-backend/ledger-python/src/linkmint_ledger/ledger.py: posting, reversal and reads, on
-- the rows of the table `ledger.ledger_entries`. A UUID is its text. The database's part is written
-- out: `BIGSERIAL` numbers the rows of one statement in order, and `created_at` is the time `now`
-- of the statement's transaction. Refusals by the database (an amount over 38 digits, a lost
-- connection) are not modelled.
use Prim.Native.String.{◌++◌ as append}
use paylink.Prelude.{
  ℕ, suc, ◌+◌, String, Bool, true, false, ◌&&◌, Option, none, some, List, [], ◌∷◌, ◌++◌, map, Exec,
  pure, gets, lift, or_raise, raise_if, modify, ◌>>=◌, ◌>>◌, ℤ, pos, ◌+ℤ◌, ◌-ℤ◌, ltb, leb,
  if◌then◌else◌, ◌==◌, string_eq, nat_eq, select, take, sort_by,
}
use paylink.Ledger.Entry.{
  Direction, dr, cr, LedgerError, value_error, group_not_found, Leg, value, parse_direction, flip,
  validate, eq_ℤ,
}

-- a row, which `_row_to_entry` reads back field by field
pub record Entry : Type 0 where
  pub id : ℕ
  pub entry_group : String
  pub account : String
  pub direction : Direction
  pub amount : ℤ
  pub currency : String
  pub pl_id : Option String
  pub note : Option String
  pub created_at : ℕ

-- the table, its rows in the order of insertion, and the next number of its sequence
pub record Ledger : Type 0 where
  pub rows : List Entry
  pub next_id : ℕ

abbrev pub empty : Ledger
empty = record { rows = []; next_id = 1 }

-- the columns that the rows of one posting share
pub record Header : Type 0 where
  pub entry_group : String
  pub pl_id : Option String
  pub note : Option String
  pub created_at : ℕ

abbrev pub Method : Type 0 → Type 0
Method A = Exec LedgerError Ledger A

-- the loop that collects the rows, with `Direction(leg.direction)` for each
unfoldable pub directed : List Leg → Option (List (Direction × Leg))
directed [] = some []
directed (leg ∷ legs) = elim (parse_direction leg.direction) [
  | none ↦ none
  | some d ↦ elim (directed legs) [ none ↦ none | some rest ↦ some ((d, leg) ∷ rest) ]
]

abbrev pub to_entry : Header → ℕ → Direction × Leg → Entry
to_entry h id (d, leg) = record {
  id = id;
  entry_group = h.entry_group;
  account = leg.account;
  direction = d;
  amount = leg.amount;
  currency = leg.currency;
  pl_id = h.pl_id;
  note = h.note;
  created_at = h.created_at;
}

unfoldable pub numbered : Header → ℕ → List (Direction × Leg) → List Entry
numbered h id [] = []
numbered h id (x ∷ xs) = to_entry h id x ∷ numbered h (suc id) xs

abbrev pub count {ℓ} : {A : Type ℓ} → List A → ℕ
count [] = 0
count (_ ∷ xs) = suc (count xs)

-- the one `INSERT` statement
unfoldable pub insert_rows : Header → List (Direction × Leg) → Ledger → Ledger
unfolding numbered
insert_rows h xs s = record {
  rows = s.rows ++ numbered h s.next_id xs;
  next_id = s.next_id + count xs;
}

abbrev pub get_or : Option String → String → String
get_or none d = d
get_or (some x) d = x

-- `fresh` is the value of `uuid.uuid4()`
unfoldable pub post :
    (now : ℕ) (fresh : String) (legs : List Leg) (entry_group pl_id note : Option String)
    → Method String
unfolding validate directed insert_rows
post now fresh legs entry_group pl_id note = do
  lift (validate legs)
  let group = get_or entry_group fresh
  directions ← or_raise (directed legs) value_error
  modify (
      insert_rows (record { entry_group = group; pl_id = pl_id; note = note; created_at = now })
        directions)
  pure group

-- `ORDER BY id`
abbrev pub by_id : Entry → Entry → Bool
by_id a b = leb a.id b.id

-- `ORDER BY created_at DESC, id DESC`
abbrev pub newest : Entry → Entry → Bool
newest a b =
    if ltb b.created_at a.created_at
    then true
    else if ltb a.created_at b.created_at
    then false
    else leb b.id a.id

abbrev pub in_group : String → Entry → Bool
in_group g e = e.entry_group == g

unfoldable pub entries_by_group : String → Ledger → List Entry
entries_by_group g s = sort_by by_id (select (in_group g) s.rows)

-- `_clamp`; a limit may be negative
unfoldable pub clamp : ℤ → ℕ
clamp (pos limit) = if limit == 0 then 100 else if ltb 1000 limit then 1000 else limit
clamp _ = 100

unfoldable pub entries_by_account : String → ℤ → Ledger → List Entry
unfolding clamp
entries_by_account a limit s =
    take (clamp limit) (sort_by newest (select (λ e. e.account == a) s.rows))

abbrev pub has_pl_id : String → Option String → Bool
has_pl_id p none = false
has_pl_id p (some q) = q == p

unfoldable pub entries_by_pl_id : String → ℤ → Ledger → List Entry
unfolding clamp
entries_by_pl_id p limit s =
    take (clamp limit) (sort_by newest (select (λ e. has_pl_id p e.pl_id) s.rows))

-- `next((e.pl_id for e in entries if e.pl_id), None)`: the empty text counts as none
unfoldable pub first_pl_id : List Entry → Option String
first_pl_id [] = none
first_pl_id (e ∷ es) = elim e.pl_id [
  | none ↦ first_pl_id es
  | some p ↦ let rest = first_pl_id es in if p == "" then rest else some p
]

abbrev pub flipped_leg : Entry → Leg
flipped_leg e = record {
  account = e.account;
  direction = value (flip e.direction);
  amount = e.amount;
  currency = e.currency;
}

-- `note or f"reversal of {entry_group}"`
abbrev pub reversal_note : Option String → String → String
reversal_note none g = append "reversal of " g
reversal_note (some n) g = if n == "" then append "reversal of " g else n

abbrev pub is_empty {ℓ} : {A : Type ℓ} → List A → Bool
is_empty [] = true
is_empty (_ ∷ _) = false

unfoldable pub reverse :
    (now : ℕ) (fresh entry_group : String) (note : Option String) → Method String
unfolding entries_by_group first_pl_id
reverse now fresh entry_group note = do
  entries ← gets (entries_by_group entry_group)
  raise_if (is_empty entries) group_not_found
  post now fresh (map flipped_leg entries) none (first_pl_id entries)
      (some (reversal_note note entry_group))

-- `SUM` of a signed amount over the rows
unfoldable pub sum_of : (Entry → ℤ) → List Entry → ℤ
sum_of f [] = pos 0
sum_of f (e ∷ es) = f e +ℤ sum_of f es

abbrev pub signed : Direction → Entry → ℤ
signed dr e = elim e.direction [ dr ↦ e.amount | cr ↦ pos 0 -ℤ e.amount ]
signed cr e = elim e.direction [ dr ↦ pos 0 -ℤ e.amount | cr ↦ e.amount ]

abbrev pub credit_in : String → String → Entry → ℤ
credit_in a c e = if (e.account == a) && (e.currency == c) then signed cr e else pos 0

unfoldable pub balance : String → String → Ledger → ℤ
unfolding sum_of
balance a c s = sum_of (credit_in a c) s.rows

abbrev pub debit_in : String → Entry → ℤ
debit_in c e = if e.currency == c then signed dr e else pos 0

unfoldable pub is_balanced : String → Ledger → Bool
unfolding sum_of
is_balanced c s = eq_ℤ (sum_of (debit_in c) s.rows) (pos 0)
