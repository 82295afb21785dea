-- ===== src/Ledger/Listing.antt =====
-- The listings of linkmint-backend/ledger-python by account and by PayLink: the latest rows.
use paylink.Prelude.{
  ℕ, zero, suc, All-drop, ◌+◌, ◌<◌, ◌≤◌, String, ◌≡◌, ◌∙◌, ◌⊎◌, inl, inr, refl, sym, Bool, true, ap,
  List, [], ◌∷◌, min, ltb, if◌then◌else◌, drop, how_many, how_many-append, how_many-sort_by,
  take-append-drop, Bool-cases, nat_eq, Option, none, some, arith, ℤ, pos, negsuc, ◌==◌, string_eq,
  eq_iff_at, All, All-map, All-take, All-sort_by, select, select-All, length, length-take, take,
  IsSortedBy, IsOrder, sort_by, sort_by-IsSortedBy, IsSortedBy-take,
}
use paylink.Ledger.Store.{
  Entry, Ledger, entries_by_account, entries_by_pl_id, has_pl_id, newest, clamp,
}

newest-IsOrder : IsOrder newest
newest-IsOrder = record { total = λ a b h. ground arith; trans = λ a b c h k. ground arith }

clamp_bounds : (limit : ℤ) → (1 ≤ clamp limit) × (clamp limit ≤ 1000)
unfolding clamp
clamp_bounds (pos limit) = ground arith
clamp_bounds (negsuc limit) = ground arith

-- The rows that `p` selects, newest first, cut at a limit.
module _ (p : Entry → Bool) (limit : ℤ) (rows : List Entry) where
  abbrev pub page : List Entry
  page = take (clamp limit) (sort_by newest (select p rows))

  page-length : length page ≤ 1000
  page-length =
      omega (arith, clamp_bounds limit, length-take (clamp limit) (sort_by newest (select p rows)))

  page-IsSortedBy : IsSortedBy newest page
  page-IsSortedBy =
      IsSortedBy-take newest (clamp limit) (sort_by newest (select p rows))
        (sort_by-IsSortedBy newest newest-IsOrder (select p rows))

  page-All : All (λ e. p e ≡ true) page
  page-All =
      All-take _ (clamp limit) (sort_by newest (select p rows))
        (All-sort_by newest _ (select p rows) (select-All _ p (λ e h. h) rows))

has_pl_id_sound : (p : String) (q : Option String) → has_pl_id p q ≡ true → q ≡ some p
has_pl_id_sound p none h = cc
has_pl_id_sound p (some q) h = ap some ((eq_iff_at q p).0 h)

-- An entry that is at least as new as another: posted later, or then and under no smaller number.
abbrev pub IsNoOlder : Entry → Entry → Type 0
IsNoOlder e o = (o.created_at < e.created_at) ⊎ ((e.created_at ≡ o.created_at) × (o.id ≤ e.id))

newest-IsNoOlder : (e o : Entry) → newest e o ≡ true → IsNoOlder e o
newest-IsNoOlder e o h = elim (Bool-cases (ltb o.created_at e.created_at)) [
  | inl a ↦ inl (ground (arith, a))
  | inr a ↦ inr (ground (arith, a, h), ground (arith, a, h))
]

-- the number of rows that a limit allows: 100 for none or a negative one, and at most 1000
abbrev pub allowed : ℤ → ℕ
allowed (pos limit) = if limit == 0 then 100 else min limit 1000
allowed (negsuc _) = 100

clamp-allowed : (limit : ℤ) → clamp limit ≡ allowed limit
unfolding clamp
clamp-allowed (pos limit) = ground arith
clamp-allowed (negsuc limit) = refl

-- Each row is at least as new as every later one.
abbrev pub IsDescending : List Entry → Type 0
IsDescending [] = Unit
IsDescending (e ∷ rows) = All (IsNoOlder e) rows × IsDescending rows

-- The latest of some rows: in order, as many as are allowed, and with the rest, which are no newer,
-- they are these rows, each as often.
pub record AreLatest (limit : ℤ) (rows latest : List Entry) : Type 0 where
  pub rest : List Entry
  pub complete : (q : Entry → Bool) → how_many q latest + how_many q rest ≡ how_many q rows
  pub ordered : All (λ e. All (IsNoOlder e) rest) latest
  pub descending : IsDescending latest
  pub many : length latest ≡ min (allowed limit) (length rows)

no_older :
    (e : Entry) (rows : List Entry) → All (λ o. newest e o ≡ true) rows → All (IsNoOlder e) rows
no_older e rows h =
    All-map (λ o. newest e o ≡ true) (IsNoOlder e) (λ o. newest-IsNoOlder e o) rows h

sorted-IsDescending : (rows : List Entry) → IsSortedBy newest rows → IsDescending rows
sorted-IsDescending [] h = tt
sorted-IsDescending (e ∷ rows) h = (no_older e rows h.0, sorted-IsDescending rows h.1)

cut_ordered :
    (n : ℕ) (rows : List Entry)
    → IsSortedBy newest rows
    → All (λ e. All (IsNoOlder e) (drop n rows)) (take n rows)
cut_ordered zero rows h = tt
cut_ordered (suc n) [] h = tt
cut_ordered (suc n) (e ∷ rows) h = (All-drop _ n rows (no_older e rows h.0), cut_ordered n rows h.1)

how_many-everything : (rows : List Entry) → how_many (λ e. true) rows ≡ length rows
how_many-everything [] = refl
how_many-everything (e ∷ rows) = ap suc (how_many-everything rows)

length-sorted : (rows : List Entry) → length (sort_by newest rows) ≡ length rows
length-sorted rows =
    sym (how_many-everything (sort_by newest rows))
    ∙ how_many-sort_by (λ e. true) newest rows
    ∙ how_many-everything rows

module _ (p : Entry → Bool) (limit : ℤ) (rows : List Entry) where
  page-AreLatest : AreLatest limit (select p rows) (page p limit rows)
  page-AreLatest =
      let own = select p rows in
      let sorted = sort_by newest own in
      let n = clamp limit in
      record {
        rest = drop n sorted;
        complete = λ q.
            sym (how_many-append q (take n sorted) (drop n sorted))
            ∙ ap (how_many q) (take-append-drop n sorted)
            ∙ how_many-sort_by q newest own;
        ordered = cut_ordered n sorted (sort_by-IsSortedBy newest newest-IsOrder own);
        descending = sorted-IsDescending (page p limit rows) (page-IsSortedBy p limit rows);
        many = omega (arith, length-take n sorted, length-sorted own, clamp-allowed limit);
      }

-- Whatever the limit, a listing by account has at most 1000 rows, each of that account, and they are
-- the latest of the account's rows: in descending order, as many as the limit allows, and no row of
-- the account that is left out is newer than a listed one.
pub entries_by_account_lem :
    (a : String) (limit : ℤ) (s : Ledger)
    → (length (entries_by_account a limit s) ≤ 1000)
      × All (λ e. e.account ≡ a) (entries_by_account a limit s)
      × AreLatest limit (select (λ e. e.account == a) s.rows) (entries_by_account a limit s)
unfolding entries_by_account
entries_by_account_lem a limit s =
    let own = λ (e : Entry). e.account == a in
    (
      page-length own limit s.rows,
      All-map (λ e. own e ≡ true) (λ e. e.account ≡ a) (λ e h. (eq_iff_at e.account a).0 h)
          (page own limit s.rows) (page-All own limit s.rows),
      page-AreLatest own limit s.rows,
    )

-- The same of a listing by PayLink.
pub entries_by_pl_id_lem :
    (p : String) (limit : ℤ) (s : Ledger)
    → (length (entries_by_pl_id p limit s) ≤ 1000)
      × All (λ e. e.pl_id ≡ some p) (entries_by_pl_id p limit s)
      × AreLatest limit (select (λ e. has_pl_id p e.pl_id) s.rows) (entries_by_pl_id p limit s)
unfolding entries_by_pl_id
entries_by_pl_id_lem p limit s =
    let own = λ (e : Entry). has_pl_id p e.pl_id in
    (
      page-length own limit s.rows,
      All-map (λ e. own e ≡ true) (λ e. e.pl_id ≡ some p) (λ e h. has_pl_id_sound p e.pl_id h)
          (page own limit s.rows) (page-All own limit s.rows),
      page-AreLatest own limit s.rows,
    )
