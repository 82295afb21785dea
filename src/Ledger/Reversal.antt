-- ===== src/Ledger/Reversal.antt =====
-- What `reverse` of linkmint-backend/ledger-python does to the balances.
use paylink.Prelude.{
  ℕ, String, ◌≡◌, ◌≢◌, inl, inr, refl, sym, ap, ◌∙◌, Option, none, some, List, [], ◌∷◌, map, arith,
  ok, ◌+ℤ◌, ◌-ℤ◌, int_laws, string_eq,
}
use paylink.Ledger.Entry.{Leg}
use paylink.Ledger.Postings.{IsPosting, validate_iff}
use paylink.Ledger.Store.{
  Ledger, numbered, insert_rows, post, reverse, entries_by_group, flipped_leg, sum_of, credit_in,
  balance, first_pl_id, reversal_note,
}
use paylink.Ledger.Rows.{leg_of, leg_of-numbered, post-cases, header}
use paylink.Ledger.Sums.{sum_of-append, sum_of-flipped}
use paylink.Ledger.Flips.{flipped_leg-IsPosting}
use paylink.Ledger.Audit.{posted_header, own_rows, post-entries_by_group}
use paylink.Ledger.History.{IsValid, entries_by_group_lem, post-IsValid}

module _ (now : ℕ) (fresh g : String) (note : Option String) (s : Ledger) where
  -- The reversal of a group that has rows posts the rows' legs, flipped.
  reverse_step :
      entries_by_group g s ≢ []
      → reverse now fresh g note s
        ≡ post now fresh
            (map flipped_leg (entries_by_group g s))
            none
            (first_pl_id (entries_by_group g s))
            (some (reversal_note note g))
            s
  unfolding reverse
  reverse_step known = ground arith

  group-IsPosting :
      IsValid s → entries_by_group g s ≢ [] → IsPosting (map leg_of (entries_by_group g s))
  group-IsPosting v known = elim (v.posted g) [
    | inl none_there ↦ absurd (known (entries_by_group_lem g s v ∙ none_there))
    | inr p ↦ rw (entries_by_group_lem g s v) p
  ]

  -- In a valid table, reversing a group that has rows is accepted, under the fresh group, and takes
  -- back what the group's rows added to the balance of every account in every currency.
  pub reverse-balance :
      IsValid s
      → entries_by_group g s ≢ []
      → let (r, t) = reverse now fresh g note s in
        (r ≡ ok fresh)
        × ((a c : String)
            → balance a c t ≡ balance a c s -ℤ sum_of (credit_in a c) (entries_by_group g s))
  unfolding balance insert_rows
  reverse-balance v known =
      let es = entries_by_group g s in
      let p = flipped_leg-IsPosting es (group-IsPosting v known) in
      let legs = map flipped_leg es in
      elim (post-cases now fresh legs none (first_pl_id es) (some (reversal_note note g)) s) [
        | inl (e, refused, _) ↦ let accepted = (validate_iff legs).1 p in cc
        | inr (xs, d, _, done) ↦
            let h = header now fresh legs none (first_pl_id es) (some (reversal_note note g)) in
            rw (reverse_step known, done)
              (
                refl,
                λ a c.
                    rw
                      (
                        sum_of-append (credit_in a c) s.rows (numbered h s.next_id xs),
                        sum_of-flipped a c es (numbered h s.next_id xs)
                            (leg_of-numbered h s.next_id legs d),
                      )
                      (omega int_laws),
              )
      ]

IsPosting-ne_nil : (legs : List Leg) → IsPosting legs → legs ≢ []
IsPosting-ne_nil [] p e = cc (p.debited)
IsPosting-ne_nil (leg ∷ legs) p e = cc

-- What a posting into a new group adds to a balance is what the group's rows add to it.
balance-post :
    (now : ℕ) (fresh : String) (legs : List Leg) (g : String) (pl_id note : Option String)
    (s : Ledger)
    → IsValid s
    → IsPosting legs
    → entries_by_group g s ≡ []
    → (a c : String)
    → let t = (post now fresh legs (some g) pl_id note s).1 in
      balance a c t ≡ balance a c s +ℤ sum_of (credit_in a c) (entries_by_group g t)
unfolding balance insert_rows
balance-post now fresh legs g pl_id note s v p new a c =
    elim (post-cases now fresh legs (some g) pl_id note s) [
      | inl (e, refused, _) ↦ let accepted = (validate_iff legs).1 p in cc
      | inr (xs, d, _, done) ↦
          let h = posted_header now fresh legs g pl_id note s in
          rw (done, own_rows now fresh legs g pl_id note s xs d p v new)
            (sum_of-append (credit_in a c) s.rows (numbered h s.next_id xs))
    ]

-- In a valid table, a balanced posting into a new group followed by the reversal of that group is
-- accepted twice, and leaves every account with the balance that it had, in every currency.
pub reverse-post_cancels :
    (now later : ℕ) (fresh fresh' g : String) (legs : List Leg) (pl_id note note' : Option String)
    (s : Ledger)
    → IsValid s
    → IsPosting legs
    → entries_by_group g s ≡ []
    → let (r, t) = post now fresh legs (some g) pl_id note s in
      let (r', u) = reverse later fresh' g note' t in
      (r ≡ ok g) × (r' ≡ ok fresh') × ((a c : String) → balance a c u ≡ balance a c s)
unfolding balance insert_rows
reverse-post_cancels now later fresh fresh' g legs pl_id note note' s v p new =
    let (posted, read, _) = post-entries_by_group now fresh legs g pl_id note s v p new in
    let t = (post now fresh legs (some g) pl_id note s).1 in
    let known =
      (λ (e : entries_by_group g t ≡ []). IsPosting-ne_nil legs p (sym read ∙ ap (map leg_of) e)) in
    let (reversed, taken) =
      reverse-balance later fresh' g note' t (post-IsValid now fresh legs (some g) pl_id note s v)
        known in
    (
      posted,
      reversed,
      λ a c.
          rw (taken a c, balance-post now fresh legs g pl_id note s v p new a c) (omega int_laws),
    )
