-- ===== src/Ledger/Audit.antt =====
-- What the table of linkmint-backend/ledger-python guarantees to those who read it: balance over
-- every history, rows that are never lost, legs that can be read back, reversals that cancel.
use mathlib.Core.List.{append-nil, append_assoc}
use paylink.Prelude.{
  ℕ, String, ◌≡◌, ◌≢◌, inl, inr, refl, sym, true, Option, none, some, List, [], ◌∷◌, ◌++◌, map, ok,
  if◌then◌else◌, ◌==◌, string_eq, eq_iff_at, Bool-cases,
}
use paylink.Ledger.Entry.{Direction, Leg}
use paylink.Ledger.Postings.{IsPosting, validate_iff}
use paylink.Ledger.Store.{
  Entry, Ledger, Header, empty, directed, numbered, insert_rows, post, reverse, entries_by_group,
  flipped_leg, is_balanced, is_empty,
}
use paylink.Ledger.Rows.{leg_of, leg_of-numbered, post-cases, header}
use paylink.Ledger.Sums.{eq_ℤ_iff}
use paylink.Ledger.History.{
  IsValid, empty-IsValid, entries_by_group_lem, group-insert_rows, insert_rows-IsValid, Call,
  posting, reversal, perform, run, run-IsValid,
}

-- After any sequence of postings and reversals on a new table, whether they return or raise, the
-- debits and the credits of every currency are equal.
pub run-is_balanced : (calls : List Call) (c : String) → is_balanced c (run calls empty) ≡ true
unfolding is_balanced
run-is_balanced calls c = (eq_ℤ_iff _ _).1 ((run-IsValid calls empty empty-IsValid).balanced c)

-- `s` has every row of `r`, in place.
abbrev pub Extends : Ledger → Ledger → Type 0
Extends r s = (xs : List Entry) × (s.rows ≡ r.rows ++ xs)

post-Extends :
    (now : ℕ) (fresh : String) (legs : List Leg) (g pl_id note : Option String) (s : Ledger)
    → Extends s (post now fresh legs g pl_id note s).1
unfolding insert_rows
post-Extends now fresh legs g pl_id note s = elim (post-cases now fresh legs g pl_id note s) [
  | inl (e, _, same) ↦ ([], rw (same, append-nil))
  | inr (xs, _, _, done) ↦ (numbered (header now fresh legs g pl_id note) s.next_id xs, rw done)
]

reverse-Extends :
    (now : ℕ) (fresh g : String) (note : Option String) (s : Ledger)
    → Extends s (reverse now fresh g note s).1
unfolding reverse
reverse-Extends now fresh g memo s = elim (Bool-cases (is_empty (entries_by_group g s))) [
  | inl e ↦ rw e ([], sym (append-nil s.rows))
  | inr e ↦ rw e (post-Extends now fresh (map flipped_leg (entries_by_group g s)) none _ _ s)
]

Extends-trans : (r s t : Ledger) → Extends r s → Extends s t → Extends r t
Extends-trans r s t (xs, h) (ys, k) = (xs ++ ys, rw (k, h) (append_assoc r.rows xs ys))

-- No call edits, moves or drops a row that is there: what was in the table before any sequence of
-- calls is the first part of the table after it.
pub run-append_only : (calls : List Call) (s : Ledger) → Extends s (run calls s)
unfolding run perform
run-append_only [] s = ([], sym (append-nil s.rows))
run-append_only (posting now fresh legs g pl_id note ∷ calls) s =
    let t = (post now fresh legs g pl_id note s).1 in
    Extends-trans s t (run calls t) (post-Extends now fresh legs g pl_id note s)
      (run-append_only calls t)
run-append_only (reversal now fresh g note ∷ calls) s =
    let t = (reverse now fresh g note s).1 in
    Extends-trans s t (run calls t) (reverse-Extends now fresh g note s) (run-append_only calls t)

module _ (now : ℕ) (fresh : String) (legs : List Leg) (g : String) (pl_id note : Option String)
    (s : Ledger) where
  abbrev pub posted_header : Header
  posted_header = header now fresh legs (some g) pl_id note

  -- the rows of a group after a posting into one
  post-select :
      (xs : List (Direction × Leg))
      → directed legs ≡ some xs
      → IsPosting legs
      → IsValid s
      → (j : String)
      → entries_by_group j (insert_rows posted_header xs s)
        ≡ entries_by_group j s ++ (if g == j then numbered posted_header s.next_id xs else [])
  post-select xs d p v j =
      rw
        (
          entries_by_group_lem j (insert_rows posted_header xs s)
              (insert_rows-IsValid posted_header legs d s p v),
          entries_by_group_lem j s v,
        )
        (group-insert_rows posted_header legs d j s)

  pub own_rows :
      (xs : List (Direction × Leg))
      → directed legs ≡ some xs
      → IsPosting legs
      → IsValid s
      → entries_by_group g s ≡ []
      → entries_by_group g (insert_rows posted_header xs s) ≡ numbered posted_header s.next_id xs
  own_rows xs d p v new = rw (post-select xs d p v g, new, (eq_iff_at g g).1 refl)

  other_rows :
      (xs : List (Direction × Leg))
      → directed legs ≡ some xs
      → IsPosting legs
      → IsValid s
      → (j : String) → g ≢ j
      → entries_by_group j (insert_rows posted_header xs s) ≡ entries_by_group j s
  other_rows xs d p v j ne = elim (Bool-cases (g == j)) [
    | inl e ↦ absurd (ne ((eq_iff_at g j).0 e))
    | inr e ↦ rw (post-select xs d p v j, e) (append-nil (entries_by_group j s))
  ]

  -- In a valid table, a balanced posting into a new group is accepted; the group's rows then give
  -- the legs back in their order, and the rows of every other group are those of before.
  pub post-entries_by_group :
      IsValid s
      → IsPosting legs
      → entries_by_group g s ≡ []
      → let (r, t) = post now fresh legs (some g) pl_id note s in
        (r ≡ ok g)
        × (map leg_of (entries_by_group g t) ≡ legs)
        × ((j : String) → g ≢ j → entries_by_group j t ≡ entries_by_group j s)
  post-entries_by_group v p new = elim (post-cases now fresh legs (some g) pl_id note s) [
    | inl (e, refused, _) ↦ let accepted = (validate_iff legs).1 p in cc
    | inr (xs, d, _, done) ↦ rw done (
      refl,
      rw (own_rows xs d p v new) (leg_of-numbered posted_header s.next_id legs d),
      other_rows xs d p v,
    )
  ]
