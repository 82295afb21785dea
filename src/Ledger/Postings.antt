-- ===== src/Ledger/Postings.antt =====
-- What a balanced posting is, said without the validator's loop, and that the validator of
-- linkmint-backend/ledger-python/src/linkmint_ledger/entry.py decides it.
use paylink.Prelude.{
  String, ◌≡◌, ◌↔◌, ◌⊎◌, inl, inr, refl, subst, Bool, true, false, not, ◌||◌, some, List, [], ◌∷◌,
  arith, ok, ℤ, pos, ◌+ℤ◌, ◌≤ℤ◌, int_laws, ltb, length, if◌then◌else◌, ◌==◌, string_eq, eq_iff_at,
  Table, lookup, lookup-insert, IsDict, insert-IsDict, is_blank, All, any, Option-cases,
  Result-cases,
}
use paylink.Ledger.Entry.{
  Direction, dr, cr, Leg, value, parse_direction, check_leg, Totals, Tally, start, totals_of,
  add_side, is_dr, add_leg, tally, check_totals, finish, validate,
}

-- A leg has a side, names, and a positive amount.
pub record IsWellFormed (leg : Leg) : Type 0 where
  pub sided : (leg.direction ≡ "DR") ⊎ (leg.direction ≡ "CR")
  pub account_named : is_blank leg.account ≡ false
  pub currency_named : is_blank leg.currency ≡ false
  pub positive : pos 1 ≤ℤ leg.amount

abbrev pub is_side : Direction → Leg → Bool
is_side d leg = leg.direction == value d

-- what a leg adds to one side of one currency
abbrev pub amount_on : Direction → String → Leg → ℤ
amount_on d c leg =
    if leg.currency == c then (if leg.direction == value d then leg.amount else pos 0) else pos 0

-- the sum of one side in one currency
abbrev pub total : Direction → String → List Leg → ℤ
total d c [] = pos 0
total d c (leg ∷ legs) = amount_on d c leg +ℤ total d c legs

pub record IsPosting (legs : List Leg) : Type 0 where
  pub well_formed : All IsWellFormed legs
  pub debited : any (is_side dr) legs ≡ true
  pub credited : any (is_side cr) legs ≡ true
  pub balanced : (c : String) → total dr c legs ≡ total cr c legs

pub parse_direction_sound : (s : String) {d : Direction} → parse_direction s ≡ some d → s ≡ value d
unfolding parse_direction
parse_direction_sound s {d = dr} h = ground (arith, eq_iff_at s "DR", eq_iff_at s "CR")
parse_direction_sound s {d = cr} h = ground (arith, eq_iff_at s "DR", eq_iff_at s "CR")

parse_direction-value : (d : Direction) → parse_direction (value d) ≡ some d
unfolding parse_direction
parse_direction-value dr = refl
parse_direction-value cr = refl

pub parse_direction_complete :
    (d : Direction) (s : String) → s ≡ value d → parse_direction s ≡ some d
parse_direction_complete d s e = rw e (parse_direction-value d)

check_leg_sound :
    (leg : Leg) {d : Direction}
    → check_leg leg ≡ ok d
    → IsWellFormed leg × (leg.direction ≡ value d)
unfolding check_leg
check_leg_sound leg {d = dr} h = elim (Option-cases (parse_direction leg.direction)) [
  | inl e ↦ ground arith
  | inr (x, e) ↦ ground (arith, parse_direction_sound leg.direction e)
]
check_leg_sound leg {d = cr} h = elim (Option-cases (parse_direction leg.direction)) [
  | inl e ↦ ground arith
  | inr (x, e) ↦ ground (arith, parse_direction_sound leg.direction e)
]

check_leg_complete : (leg : Leg) → IsWellFormed leg → (d : Direction) × (check_leg leg ≡ ok d)
unfolding check_leg
check_leg_complete leg w = elim w.sided [
  | inl e ↦ (dr, rw e (ground (arith, parse_direction-value dr, w)))
  | inr e ↦ (cr, rw e (ground (arith, parse_direction-value cr, w)))
]

totals_of-add_leg :
    (c : String) (d : Direction) (leg : Leg) (t : Tally)
    → totals_of c (add_leg d leg t).per_currency ≡ (
        if leg.currency == c
        then add_side d leg.amount (totals_of c t.per_currency)
        else totals_of c t.per_currency)
unfolding totals_of add_leg
totals_of-add_leg c d leg t = ground (
  arith,
  eq_iff_at leg.currency c,
  lookup-insert leg.currency c (add_side d leg.amount (totals_of leg.currency t.per_currency))
      t.per_currency,
)

-- What the loop has done when it ends, from the totals that it began with.
pub record IsTallied (legs : List Leg) (t u : Tally) : Type 0 where
  pub well_formed : All IsWellFormed legs
  pub debited : u.have_dr ≡ any (is_side dr) legs || t.have_dr
  pub credited : u.have_cr ≡ any (is_side cr) legs || t.have_cr
  pub dr_summed :
      (c : String)
      → (totals_of c u.per_currency).dr_total
        ≡ (totals_of c t.per_currency).dr_total +ℤ total dr c legs
  pub cr_summed :
      (c : String)
      → (totals_of c u.per_currency).cr_total
        ≡ (totals_of c t.per_currency).cr_total +ℤ total cr c legs
  pub keyed : IsDict u.per_currency

-- A leg of the other side, or in another currency, leaves a total alone.
dr_total-add_leg :
    (c : String) (d : Direction) (leg : Leg) (t : Tally)
    → leg.direction ≡ value d
    → (totals_of c (add_leg d leg t).per_currency).dr_total
      ≡ (totals_of c t.per_currency).dr_total +ℤ amount_on dr c leg
dr_total-add_leg c dr leg t e = rw (totals_of-add_leg c dr leg t, e) (grind int_laws)
dr_total-add_leg c cr leg t e = rw (totals_of-add_leg c cr leg t, e) (grind int_laws)

cr_total-add_leg :
    (c : String) (d : Direction) (leg : Leg) (t : Tally)
    → leg.direction ≡ value d
    → (totals_of c (add_leg d leg t).per_currency).cr_total
      ≡ (totals_of c t.per_currency).cr_total +ℤ amount_on cr c leg
cr_total-add_leg c dr leg t e = rw (totals_of-add_leg c dr leg t, e) (grind int_laws)
cr_total-add_leg c cr leg t e = rw (totals_of-add_leg c cr leg t, e) (grind int_laws)

add_leg-IsDict :
    (d : Direction) (leg : Leg) (t : Tally)
    → IsDict t.per_currency
    → IsDict (add_leg d leg t).per_currency
unfolding add_leg
add_leg-IsDict d leg t k = insert-IsDict leg.currency _ t.per_currency k

value-eq_dr : (d : Direction) → (value d == "DR") ≡ is_dr d
value-eq_dr dr = refl
value-eq_dr cr = refl

value-eq_cr : (d : Direction) → (value d == "CR") ≡ not (is_dr d)
value-eq_cr dr = refl
value-eq_cr cr = refl

module _ (legs : List Leg) (d : Direction) (leg : Leg) (t u : Tally) where
  step-IsTallied :
      IsWellFormed leg
      → leg.direction ≡ value d
      → IsTallied legs (add_leg d leg t) u
      → IsTallied (leg ∷ legs) t u
  unfolding add_leg
  step-IsTallied w e h = record {
    well_formed = (w, h.well_formed);
    debited = rw (h.debited, e, value-eq_dr) (ground arith);
    credited = rw (h.credited, e, value-eq_cr) (ground arith);
    dr_summed = λ c. rw (h.dr_summed c, dr_total-add_leg c d leg t e) (omega int_laws);
    cr_summed = λ c. rw (h.cr_summed c, cr_total-add_leg c d leg t e) (omega int_laws);
    keyed = h.keyed;
  }

tally-IsTallied :
    (legs : List Leg) (t : Tally) {u : Tally}
    → IsDict t.per_currency
    → tally t legs ≡ ok u
    → IsTallied legs t u
unfolding tally
tally-IsTallied [] t {u} k h =
    let same : t ≡ u = cc in
    subst (λ v. IsTallied [] t v) same
      (record {
        well_formed = tt;
        debited = refl;
        credited = refl;
        dr_summed = λ c. omega int_laws;
        cr_summed = λ c. omega int_laws;
        keyed = k;
      })
tally-IsTallied (leg ∷ legs) t {u} k h = elim (Result-cases (check_leg leg)) [
  | inl (x, e) ↦ ground arith
  | inr (d, e) ↦
      let (w, side) = check_leg_sound leg e in
      step-IsTallied legs d leg t u w side
        (tally-IsTallied legs (add_leg d leg t) (add_leg-IsDict d leg t k) (rw (e, tally) at h))
]

tally_complete :
    (legs : List Leg) (t : Tally) → All IsWellFormed legs → (u : Tally) × (tally t legs ≡ ok u)
unfolding tally
tally_complete [] t h = (t, refl)
tally_complete (leg ∷ legs) t h =
    let (d, e) = check_leg_complete leg h.0 in
    let (u, f) = tally_complete legs (add_leg d leg t) h.1 in (u, rw (e, tally) f)

-- Every total of a table balances exactly when every total that a lookup finds does.
check_totals_sound :
    (sums : Table String Totals)
    → check_totals sums ≡ ok tt
    → (c : String) → (totals_of c sums).dr_total ≡ (totals_of c sums).cr_total
unfolding check_totals totals_of lookup
check_totals_sound [] h c = refl
check_totals_sound ((k, t) ∷ sums) h c = grind (int_laws, check_totals_sound sums)

check_totals_complete :
    (sums : Table String Totals)
    → IsDict sums
    → ((c : String) → (totals_of c sums).dr_total ≡ (totals_of c sums).cr_total)
    → check_totals sums ≡ ok tt
unfolding check_totals totals_of lookup
check_totals_complete [] k h = refl
check_totals_complete ((i, t) ∷ sums) k h =
    let rest = check_totals_complete sums k.1 (λ c. ground (arith, eq_iff_at i c, h c, k.0)) in
    ground (arith, eq_iff_at i i, h i, rest)

finish_sound :
    (t : Tally)
    → finish t ≡ ok tt
    → (t.have_dr ≡ true) × (t.have_cr ≡ true) × (check_totals t.per_currency ≡ ok tt)
unfolding finish
finish_sound t h = ground arith

dr_from_start : (c : String) (a : ℤ) → (totals_of c start.per_currency).dr_total +ℤ a ≡ a
unfolding totals_of lookup
dr_from_start c a = omega int_laws

cr_from_start : (c : String) (a : ℤ) → (totals_of c start.per_currency).cr_total +ℤ a ≡ a
unfolding totals_of lookup
cr_from_start c a = omega int_laws

validate_sound : (legs : List Leg) → validate legs ≡ ok tt → IsPosting legs
unfolding validate
validate_sound legs h = elim (Result-cases (tally start legs)) [
  | inl (x, e) ↦ ground arith
  | inr (t, e) ↦
      let run = tally-IsTallied legs start tt e in
      let (d, c, sums) = finish_sound t (ground arith) in
      record {
        well_formed = run.well_formed;
        debited = ground (arith, run.debited);
        credited = ground (arith, run.credited);
        balanced = λ c. cc (
          run.dr_summed c,
          run.cr_summed c,
          check_totals_sound t.per_currency sums c,
          dr_from_start c (total dr c legs),
          cr_from_start c (total cr c legs),
        );
      }
]

one_side : (s : String) → (s == "DR") || false ≡ true → (s == "CR") || false ≡ true → ⊥
one_side s d c =
    ground (arith, eq_iff_at s "DR", eq_iff_at s "CR", eq_iff_at {K = String} "DR" "CR")

long_enough :
    (legs : List Leg)
    → any (is_side dr) legs ≡ true
    → any (is_side cr) legs ≡ true
    → ltb (length legs) 2 ≡ false
long_enough [] d c = cc
long_enough (x ∷ []) d c = absurd (one_side x.direction d c)
long_enough (x ∷ y ∷ legs) d c = ground arith

validate_complete : (legs : List Leg) → IsPosting legs → validate legs ≡ ok tt
unfolding validate finish
validate_complete legs p =
    let (t, e) = tally_complete legs start p.well_formed in
    let run = tally-IsTallied legs start tt e in
    let sums = check_totals_complete t.per_currency run.keyed λ c. cc (
      run.dr_summed c,
      run.cr_summed c,
      p.balanced c,
      dr_from_start c (total dr c legs),
      cr_from_start c (total cr c legs),
    ) in
    rw (long_enough legs p.debited p.credited, e)
      (ground (arith, run.debited, run.credited, p.debited, p.credited, sums))

-- The validator accepts exactly the balanced postings.
pub validate_iff : (legs : List Leg) → (validate legs ≡ ok tt) ↔ IsPosting legs
validate_iff legs = (validate_sound legs, validate_complete legs)
