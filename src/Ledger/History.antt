-- ===== src/Ledger/History.antt =====
-- The invariant of the table of linkmint-backend/ledger-python, kept by every call of `post` and
-- `reverse`, whether it returns or raises.
use mathlib.Core.List.{append-nil, map-append}
use paylink.Prelude.{
  ℕ, suc, ◌+◌, ◌≤◌, String, ◌≡◌, ◌⊎◌, inl, inr, refl, sym, subst, ap, ◌∙◌, Bool, true, false,
  Option, none, some, List, [], ◌∷◌, ◌++◌, map, arith, pos, ◌+ℤ◌, int_laws, leb, if◌then◌else◌,
  ◌==◌, string_eq, All, All-append, All-map, any-append, select, select-append, Bool-cases,
  IsSortedBy, IsSortedBy-append, IsSortedBy-select, sort_by-of_IsSortedBy,
}
use paylink.Ledger.Entry.{Direction, dr, cr, Leg}
use paylink.Ledger.Postings.{IsPosting, total, is_side}
use paylink.Ledger.Store.{
  Entry, Ledger, Header, empty, directed, numbered, insert_rows, count, post, reverse, is_empty,
  by_id, in_group, entries_by_group, flipped_leg, sum_of, debit_in,
}
use paylink.Ledger.Rows.{leg_of, leg_of-numbered, post-cases, header}
use paylink.Ledger.Sums.{sum_of-append, sum_of-IsPosting}

-- The rows of one group are none, or a balanced posting.
abbrev pub IsGroup : List Entry → Type 0
IsGroup es = (es ≡ []) ⊎ IsPosting (map leg_of es)

pub record IsValid (s : Ledger) : Type 0 where
  pub ordered : IsSortedBy by_id s.rows
  pub below : All (λ e. suc e.id ≤ s.next_id) s.rows
  pub balanced : (c : String) → sum_of (debit_in c) s.rows ≡ pos 0
  pub posted : (g : String) → IsGroup (select (in_group g) s.rows)

total-append :
    (d : Direction) (c : String) (xs ys : List Leg)
    → total d c (xs ++ ys) ≡ total d c xs +ℤ total d c ys
total-append d c [] ys = omega int_laws
total-append d c (x ∷ xs) ys = rw (total-append d c xs ys) (omega int_laws)

IsPosting-append : (xs ys : List Leg) → IsPosting xs → IsPosting ys → IsPosting (xs ++ ys)
IsPosting-append xs ys p q = record {
  well_formed = All-append _ xs ys p.well_formed q.well_formed;
  debited = rw (any-append (is_side dr) xs ys, p.debited);
  credited = rw (any-append (is_side cr) xs ys, p.credited);
  balanced = λ c. rw (total-append dr c xs ys, total-append cr c xs ys, p.balanced c, q.balanced c);
}

IsGroup-append : (xs ys : List Entry) → IsGroup xs → IsGroup ys → IsGroup (xs ++ ys)
IsGroup-append xs ys (inl e) q = rw e q
IsGroup-append xs ys (inr p) (inl e) = rw (e, append-nil) (inr p)
IsGroup-append xs ys (inr p) (inr q) =
    inr (rw map-append (IsPosting-append (map leg_of xs) (map leg_of ys) p q))

-- the rows of one statement
module _ (h : Header) where
  numbered_after :
      (base id : ℕ) (xs : List (Direction × Leg))
      → base ≤ id
      → All (λ e. leb base e.id ≡ true) (numbered h id xs)
  unfolding numbered
  numbered_after base id [] le = tt
  numbered_after base id (x ∷ xs) le = (ground arith, numbered_after base (suc id) xs (omega arith))

  numbered_below :
      (top id : ℕ) (xs : List (Direction × Leg))
      → id + count xs ≤ top
      → All (λ e. suc e.id ≤ top) (numbered h id xs)
  unfolding numbered
  numbered_below top id [] le = tt
  numbered_below top id (x ∷ xs) le = (omega arith, numbered_below top (suc id) xs (omega arith))

  numbered-IsSortedBy : (id : ℕ) (xs : List (Direction × Leg)) → IsSortedBy by_id (numbered h id xs)
  unfolding numbered
  numbered-IsSortedBy id [] = tt
  numbered-IsSortedBy id (x ∷ xs) =
      (numbered_after id (suc id) xs (omega arith), numbered-IsSortedBy (suc id) xs)

  pub select-numbered :
      (g : String) (id : ℕ) (xs : List (Direction × Leg))
      → select (in_group g) (numbered h id xs)
        ≡ (if h.entry_group == g then numbered h id xs else [])
  unfolding numbered
  select-numbered g id [] = ground arith
  select-numbered g id (x ∷ xs) = ground (arith, select-numbered g (suc id) xs)

module _ (h : Header) (legs : List Leg) {xs : List (Direction × Leg)}
    (d : directed legs ≡ some xs) where
  -- a group of the old table with the rows of the posting, if it is that group's
  pub group-insert_rows :
      (g : String) (s : Ledger)
      → select (in_group g) (insert_rows h xs s).rows
        ≡ select (in_group g) s.rows ++ (if h.entry_group == g then numbered h s.next_id xs else [])
  unfolding insert_rows
  group-insert_rows g s =
      select-append (in_group g) s.rows (numbered h s.next_id xs)
      ∙ ap (λ ys. select (in_group g) s.rows ++ ys) (select-numbered h g s.next_id xs)

  new-IsGroup : (id : ℕ) (b : Bool) → IsPosting legs → IsGroup (if b then numbered h id xs else [])
  new-IsGroup id true p = inr (rw (leg_of-numbered h id legs d) p)
  new-IsGroup id false p = inl refl

  pub insert_rows-IsValid : (s : Ledger) → IsPosting legs → IsValid s → IsValid (insert_rows h xs s)
  unfolding insert_rows
  insert_rows-IsValid s p v = record {
    ordered =
        IsSortedBy-append by_id s.rows (numbered h s.next_id xs) v.ordered
          (numbered-IsSortedBy h s.next_id xs)
          (All-map (λ e. suc e.id ≤ s.next_id)
            (λ e. All (λ y. leb e.id y.id ≡ true) (numbered h s.next_id xs))
            (λ e le. numbered_after h e.id s.next_id xs (omega arith)) s.rows v.below);
    below =
        All-append (λ e. suc e.id ≤ s.next_id + count xs) s.rows (numbered h s.next_id xs)
          (All-map _ _ (λ e le. omega arith) s.rows v.below)
          (numbered_below h (s.next_id + count xs) s.next_id xs (omega arith));
    balanced = λ c.
        rw
          (
            sum_of-append (debit_in c) s.rows (numbered h s.next_id xs),
            v.balanced c,
            sum_of-IsPosting c (numbered h s.next_id xs)
                (rw (leg_of-numbered h s.next_id legs d) p),
          )
          (omega int_laws);
    posted = λ g. subst IsGroup (sym (group-insert_rows g s)) (
        IsGroup-append (select (in_group g) s.rows) _ (v.posted g)
          (new-IsGroup s.next_id (h.entry_group == g) p));
  }

pub empty-IsValid : IsValid empty
unfolding sum_of
empty-IsValid = record { ordered = tt; below = tt; balanced = λ c. refl; posted = λ g. inl refl }

pub post-IsValid :
    (now : ℕ) (fresh : String) (legs : List Leg) (entry_group pl_id note : Option String)
    (s : Ledger)
    → IsValid s
    → IsValid (post now fresh legs entry_group pl_id note s).1
post-IsValid now fresh legs entry_group pl_id note s v =
    elim (post-cases now fresh legs entry_group pl_id note s) [
      | inl (e, _, same) ↦ rw same v
      | inr (xs, d, p, done) ↦
          rw done (insert_rows-IsValid (header now fresh legs entry_group pl_id note) legs d s p v)
    ]

-- `entries_by_group` needs no sorting in a valid table.
pub entries_by_group_lem :
    (g : String) (s : Ledger) → IsValid s → entries_by_group g s ≡ select (in_group g) s.rows
unfolding entries_by_group
entries_by_group_lem g s v =
    sort_by-of_IsSortedBy by_id (select (in_group g) s.rows)
      (IsSortedBy-select by_id (in_group g) s.rows v.ordered)

pub reverse-IsValid :
    (now : ℕ) (fresh g : String) (note : Option String) (s : Ledger)
    → IsValid s
    → IsValid (reverse now fresh g note s).1
unfolding reverse
reverse-IsValid now fresh g memo s v = elim (Bool-cases (is_empty (entries_by_group g s))) [
  | inl e ↦ rw e v
  | inr e ↦ rw e (post-IsValid now fresh (map flipped_leg (entries_by_group g s)) none _ _ s v)
]

-- One call on the table, by a caller that goes on after an error.
pub data Call : Type 0 where
  posting :
      (now : ℕ) (fresh : String) (legs : List Leg) (entry_group pl_id note : Option String) → Call
  reversal : (now : ℕ) (fresh entry_group : String) (note : Option String) → Call

unfoldable pub perform : Call → Ledger → Ledger
perform (posting now fresh legs g pl_id note) s = (post now fresh legs g pl_id note s).1
perform (reversal now fresh g note) s = (reverse now fresh g note s).1

unfoldable pub run : List Call → Ledger → Ledger
unfolding perform
run [] s = s
run (call ∷ calls) s = run calls (perform call s)

pub run-IsValid : (calls : List Call) (s : Ledger) → IsValid s → IsValid (run calls s)
unfolding run
run-IsValid [] s v = v
run-IsValid (posting now fresh legs g pl_id note ∷ calls) s v =
    run-IsValid calls _ (post-IsValid now fresh legs g pl_id note s v)
run-IsValid (reversal now fresh g note ∷ calls) s v =
    run-IsValid calls _ (reverse-IsValid now fresh g note s v)
