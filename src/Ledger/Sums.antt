-- ===== src/Ledger/Sums.antt =====
-- Sums over the rows of linkmint-backend/ledger-python's table: of one posting, of appended rows,
-- and of the rows that a reversal adds.
use paylink.Prelude.{
  String, ◌≡◌, ◌↔◌, refl, Bool, true, false, List, [], ◌∷◌, ◌++◌, map, arith, ℤ, pos, ◌+ℤ◌, ◌-ℤ◌,
  int_laws, if◌then◌else◌, ◌==◌, string_eq, ◌&&◌,
}
use paylink.Ledger.Entry.{Direction, dr, cr, Leg, value, flip, eq_ℤ}
use paylink.Ledger.Postings.{IsPosting, amount_on, total}
use paylink.Ledger.Store.{Entry, flipped_leg, sum_of, credit_in, debit_in}
use paylink.Ledger.Rows.{leg_of}

pub eq_ℤ_iff : (a b : ℤ) → (eq_ℤ a b ≡ true) ↔ (a ≡ b)
eq_ℤ_iff a b = ground arith

pub sum_of-append :
    (f : Entry → ℤ) (xs ys : List Entry) → sum_of f (xs ++ ys) ≡ sum_of f xs +ℤ sum_of f ys
unfolding sum_of
sum_of-append f [] ys = omega int_laws
sum_of-append f (x ∷ xs) ys = rw (sum_of-append f xs ys) (omega int_laws)

module _ (x : ℤ) where
  debit_sides :
      (b : Bool) (d : Direction)
      → (if b then elim d [ dr ↦ x | cr ↦ pos 0 -ℤ x ] else pos 0)
        ≡ (if b then (if value d == "DR" then x else pos 0) else pos 0)
          -ℤ (if b then (if value d == "CR" then x else pos 0) else pos 0)
  debit_sides true dr = omega int_laws
  debit_sides true cr = omega int_laws
  debit_sides false d = omega int_laws

  credit_sides :
      (b b' : Bool) (d : Direction)
      → (if b && b' then elim d [ dr ↦ pos 0 -ℤ x | cr ↦ x ] else pos 0) ≡ (
          if b
          then (if b' then (if value d == "CR" then x else pos 0) else pos 0)
            -ℤ (if b' then (if value d == "DR" then x else pos 0) else pos 0)
          else pos 0)
  credit_sides true true dr = omega int_laws
  credit_sides true true cr = omega int_laws
  credit_sides true false d = omega int_laws
  credit_sides false b' d = refl

-- A row adds to its currency what its leg adds to the debits, less what it adds to the credits.
debit_in-leg_of :
    (c : String) (e : Entry) → debit_in c e ≡ amount_on dr c (leg_of e) -ℤ amount_on cr c (leg_of e)
debit_in-leg_of c e = debit_sides e.amount (e.currency == c) e.direction

pub sum_of-debit_in :
    (c : String) (es : List Entry)
    → sum_of (debit_in c) es ≡ total dr c (map leg_of es) -ℤ total cr c (map leg_of es)
unfolding sum_of
sum_of-debit_in c [] = omega int_laws
sum_of-debit_in c (e ∷ es) = rw (sum_of-debit_in c es, debit_in-leg_of c e) (omega int_laws)

-- The rows of a posting net to nothing in every currency.
pub sum_of-IsPosting :
    (c : String) (es : List Entry) → IsPosting (map leg_of es) → sum_of (debit_in c) es ≡ pos 0
sum_of-IsPosting c es p = rw (sum_of-debit_in c es, p.balanced c) (omega int_laws)

-- what a leg adds to the balance of an account
abbrev leg_credit : String → String → Leg → ℤ
leg_credit a c leg = if leg.account == a then amount_on cr c leg -ℤ amount_on dr c leg else pos 0

abbrev sum_legs : (Leg → ℤ) → List Leg → ℤ
sum_legs f [] = pos 0
sum_legs f (leg ∷ legs) = f leg +ℤ sum_legs f legs

credit_in-leg_of : (a c : String) (e : Entry) → credit_in a c e ≡ leg_credit a c (leg_of e)
credit_in-leg_of a c e = credit_sides e.amount (e.account == a) (e.currency == c) e.direction

sum_of-credit_in :
    (a c : String) (es : List Entry)
    → sum_of (credit_in a c) es ≡ sum_legs (leg_credit a c) (map leg_of es)
unfolding sum_of
sum_of-credit_in a c [] = refl
sum_of-credit_in a c (e ∷ es) = rw (sum_of-credit_in a c es, credit_in-leg_of a c e)

module _ (x : ℤ) where
  flipped_sides :
      (b b' : Bool) (d : Direction)
      → (if b
          then (if b' then (if value (flip d) == "CR" then x else pos 0) else pos 0)
            -ℤ (if b' then (if value (flip d) == "DR" then x else pos 0) else pos 0)
          else pos 0)
        ≡ pos 0
          -ℤ (if b
              then (if b' then (if value d == "CR" then x else pos 0) else pos 0)
                -ℤ (if b' then (if value d == "DR" then x else pos 0) else pos 0)
              else pos 0)
  flipped_sides true true dr = omega int_laws
  flipped_sides true true cr = omega int_laws
  flipped_sides true false d = omega int_laws
  flipped_sides false b' d = omega int_laws

sum_legs-flipped :
    (a c : String) (es : List Entry)
    → sum_legs (leg_credit a c) (map flipped_leg es)
      ≡ pos 0 -ℤ sum_legs (leg_credit a c) (map leg_of es)
sum_legs-flipped a c [] = omega int_laws
sum_legs-flipped a c (e ∷ es) =
    rw
      (
        sum_legs-flipped a c es,
        flipped_sides e.amount (e.account == a) (e.currency == c) e.direction,
      )
      (omega int_laws)

-- Rows that record the flipped legs of other rows take back what those added to a balance.
pub sum_of-flipped :
    (a c : String) (es ns : List Entry)
    → map leg_of ns ≡ map flipped_leg es
    → sum_of (credit_in a c) ns ≡ pos 0 -ℤ sum_of (credit_in a c) es
sum_of-flipped a c es ns h =
    rw (sum_of-credit_in a c ns, sum_of-credit_in a c es, h) (sum_legs-flipped a c es)
