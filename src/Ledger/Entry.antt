-- ===== src/Ledger/Entry.antt =====
-- linkmint-backend/ledger-python/src/linkmint_ledger/entry.py and errors.py: legs, directions and
-- the balance validator. An amount is a Python int; that a bool is refused needs no model, since a
-- leg's amount is a number here.
use paylink.Prelude.{
  ⊤, String, Bool, true, false, not, ◌||◌, Option, none, some, List, [], ◌∷◌, Result, ok, err, ℤ,
  pos, ◌+ℤ◌, leb_ℤ, ltb, length, if◌then◌else◌, ◌==◌, Table, lookup, insert, is_blank, string_eq,
}

pub data Direction : Type 0 where
  dr cr : Direction

-- `value_error` is Python's own `ValueError`, which is no ledger error
pub data LedgerError : Type 0 where
  unbalanced invalid_leg group_not_found value_error : LedgerError

-- `direction` is the text that the caller gave, which need not name a side
pub record Leg : Type 0 where
  pub account : String
  pub direction : String
  pub amount : ℤ
  pub currency : String

-- `Direction.value`
abbrev pub value : Direction → String
value dr = "DR"
value cr = "CR"

-- the call `Direction(text)`; `none` stands for its `ValueError`
unfoldable pub parse_direction : String → Option Direction
parse_direction text = if text == "DR" then some dr else if text == "CR" then some cr else none

abbrev pub flip : Direction → Direction
flip dr = cr
flip cr = dr

-- one turn of the loop: the checks on a leg, in their order
unfoldable pub check_leg : Leg → Result LedgerError Direction
check_leg leg = elim (parse_direction leg.direction) [
  | none ↦ err invalid_leg
  | some d ↦
      if is_blank leg.account
      then err invalid_leg
      else if is_blank leg.currency
      then err invalid_leg
      else if leb_ℤ leg.amount (pos 0)
      then err invalid_leg
      else ok d
]

-- `[dr_total, cr_total]`
pub record Totals : Type 0 where
  pub dr_total : ℤ
  pub cr_total : ℤ

abbrev pub zero_totals : Totals
zero_totals = record { dr_total = pos 0; cr_total = pos 0 }

-- the variables of the loop
pub record Tally : Type 0 where
  pub per_currency : Table String Totals
  pub have_dr : Bool
  pub have_cr : Bool

abbrev pub start : Tally
start = record { per_currency = []; have_dr = false; have_cr = false }

-- `per_currency.setdefault(currency, [0, 0])`, read
abbrev pub totals_or_zero : Option Totals → Totals
totals_or_zero none = zero_totals
totals_or_zero (some t) = t

unfoldable pub totals_of : String → Table String Totals → Totals
totals_of c sums = totals_or_zero (lookup c sums)

abbrev pub add_side : Direction → ℤ → Totals → Totals
add_side dr x t = record t { dr_total = t.dr_total +ℤ x }
add_side cr x t = record t { cr_total = t.cr_total +ℤ x }

abbrev pub is_dr : Direction → Bool
is_dr dr = true
is_dr cr = false

unfoldable pub add_leg : Direction → Leg → Tally → Tally
add_leg d leg t = record {
  per_currency =
      insert leg.currency (add_side d leg.amount (totals_of leg.currency t.per_currency))
        t.per_currency;
  have_dr = is_dr d || t.have_dr;
  have_cr = not (is_dr d) || t.have_cr;
}

-- the loop over the legs
unfoldable pub tally : Tally → List Leg → Result LedgerError Tally
tally t [] = ok t
tally t (leg ∷ legs) = elim (check_leg leg) [ err e ↦ err e | ok d ↦ tally (add_leg d leg t) legs ]

abbrev pub eq_ℤ : ℤ → ℤ → Bool
eq_ℤ a b = if leb_ℤ a b then leb_ℤ b a else false

-- the last loop, over the totals of each currency
unfoldable pub check_totals : Table String Totals → Result LedgerError ⊤
check_totals [] = ok tt
check_totals ((_, t) ∷ sums) =
    let rest = check_totals sums in if eq_ℤ t.dr_total t.cr_total then rest else err unbalanced

unfoldable pub finish : Tally → Result LedgerError ⊤
unfolding check_totals
finish t = if not t.have_dr || not t.have_cr then err unbalanced else check_totals t.per_currency

unfoldable pub validate : List Leg → Result LedgerError ⊤
unfolding tally finish
validate legs =
    if ltb (length legs) 2
    then err unbalanced
    else elim (tally start legs) [ err e ↦ err e | ok t ↦ finish t ]
