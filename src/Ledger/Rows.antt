-- ===== src/Ledger/Rows.antt =====
-- What one posting adds to the table of linkmint-backend/ledger-python: the legs can be read back
-- from its rows, and the sums over the rows are the totals of the legs.
use paylink.Prelude.{
  ℕ, suc, String, ◌≡◌, ◌⊎◌, inl, inr, refl, Option, some, List, [], ◌∷◌, map, arith, ok, err,
  string_eq, All, Option-cases, Result-cases,
}
use paylink.Ledger.Entry.{Direction, dr, cr, LedgerError, Leg, value, parse_direction, validate}
use paylink.Ledger.Postings.{
  IsWellFormed, IsPosting, validate_iff, parse_direction_sound, parse_direction_complete,
}
use paylink.Ledger.Store.{Entry, Ledger, Header, directed, numbered, insert_rows, get_or, post}

-- the leg that a row records
abbrev pub leg_of : Entry → Leg
leg_of e = record {
  account = e.account;
  direction = value e.direction;
  amount = e.amount;
  currency = e.currency;
}

directed_complete :
    (legs : List Leg)
    → All IsWellFormed legs
    → (xs : List (Direction × Leg)) × (directed legs ≡ some xs)
unfolding directed
directed_complete [] h = ([], refl)
directed_complete (leg ∷ legs) h =
    let (xs, e) = directed_complete legs h.1 in
    elim h.0.sided [
      | inl d ↦ ((dr, leg) ∷ xs, ground (arith, parse_direction_complete dr leg.direction d, e))
      | inr d ↦ ((cr, leg) ∷ xs, ground (arith, parse_direction_complete cr leg.direction d, e))
    ]

module _ (now : ℕ) (fresh : String) (legs : List Leg) (entry_group pl_id note : Option String) where
  abbrev pub header : Header
  header = record {
    entry_group = get_or entry_group fresh;
    pl_id = pl_id;
    note = note;
    created_at = now;
  }

  -- A call of `post` raises and leaves the table alone, or it adds the rows of a posting.
  pub post-cases :
      (s : Ledger)
      → ((e : LedgerError) × (validate legs ≡ err e)
          × (post now fresh legs entry_group pl_id note s ≡ (err e, s)))
        ⊎ ((xs : List (Direction × Leg)) × (directed legs ≡ some xs)
            × IsPosting legs
            × (post now fresh legs entry_group pl_id note s
                ≡ (ok (get_or entry_group fresh), insert_rows header xs s)))
  unfolding post
  post-cases s = elim (Result-cases (validate legs)) [
    | inl (e, h) ↦ inl (e, h, rw h)
    | inr (_, h) ↦
        let p = (validate_iff legs).0 h in
        let (xs, d) = directed_complete legs p.well_formed in inr (xs, d, p, rw (h, d))
  ]

-- The legs can be read back from the rows.
pub leg_of-numbered :
    (h : Header) (id : ℕ) (legs : List Leg) {xs : List (Direction × Leg)}
    → directed legs ≡ some xs
    → map leg_of (numbered h id xs) ≡ legs
unfolding directed numbered
leg_of-numbered h id [] {xs} d = ground arith
leg_of-numbered h id (leg ∷ legs) d = elim (Option-cases (parse_direction leg.direction)) [
  | inl e ↦ ground arith
  | inr (x, e) ↦ elim (Option-cases (directed legs)) [
    | inl f ↦ ground arith
    | inr (ys, f) ↦
        ground (arith, leg_of-numbered h (suc id) legs f, parse_direction_sound leg.direction e)
  ]
]
