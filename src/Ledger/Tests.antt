-- ===== src/Ledger/Tests.antt =====
-- The ledger of linkmint-backend/ledger-python on concrete legs, and its theorems at them.
use paylink.Prelude.{
  ℕ, ◌≤◌, String, ◌≡◌, ◌≢◌, ◌↔◌, refl, true, none, some, List, [], ◌∷◌, ok, err, pos, negsuc, ◌+ℤ◌,
  ◌-ℤ◌, sort_by, is_blank, insert, lookup, ap, false, All, length, select, string_eq, ◌==◌,
}
use paylink.Ledger.Entry.{
  Leg, unbalanced, invalid_leg, check_leg, parse_direction, add_leg, totals_of, validate,
}
use paylink.Ledger.Postings.{IsPosting, validate_iff}
use paylink.Ledger.Store.{
  Ledger, empty, post, reverse, entries_by_group, entries_by_account, balance, is_balanced,
  is_empty, sum_of, credit_in,
}
use paylink.Ledger.History.{IsValid, empty-IsValid, Call, posting, reversal, run, run-IsValid}
use paylink.Ledger.Audit.{Extends, run-is_balanced, run-append_only}
use paylink.Ledger.Reversal.{reverse-balance, reverse-post_cancels}
use paylink.Ledger.Listing.{AreLatest, entries_by_account_lem}

abbrev leg : String → String → ℕ → String → Leg
leg account direction amount currency = record {
  account = account;
  direction = direction;
  amount = pos amount;
  currency = currency;
}

abbrev fee_legs : List Leg
fee_legs =
    leg "paylink:PLK1" "DR" 1000 "KES"
    ∷ leg "treasury" "CR" 5 "KES"
    ∷ leg "merchant:7" "CR" 995 "KES"
    ∷ []

abbrev lopsided : List Leg
lopsided = leg "a" "DR" 10 "KES" ∷ leg "b" "CR" 10 "USD" ∷ []

validate_results :
    (validate fee_legs ≡ ok tt)
    × (validate lopsided ≡ err unbalanced)
    × (validate (leg "a" "DR" 5 "KES" ∷ leg " " "CR" 5 "KES" ∷ []) ≡ err invalid_leg)
    × (validate (leg "a" "dr" 5 "KES" ∷ leg "b" "CR" 5 "KES" ∷ []) ≡ err invalid_leg)
    × (validate (leg "a" "DR" 0 "KES" ∷ leg "b" "CR" 0 "KES" ∷ []) ≡ err invalid_leg)
unfolding validate check_leg parse_direction is_blank add_leg insert totals_of lookup ◌+ℤ◌
validate_results = (refl, refl, refl, refl, refl)

validate_iff_example : (validate fee_legs ≡ ok tt) ↔ IsPosting fee_legs
validate_iff_example = validate_iff fee_legs

fee_legs-IsPosting : IsPosting fee_legs
fee_legs-IsPosting = validate_iff_example.0 validate_results.0

abbrev history : List Call
history =
    posting 10 "g1" fee_legs none (some "PLK1") none
    ∷ posting 11 "g2" lopsided none none none
    ∷ reversal 12 "g3" "g1" none
    ∷ reversal 13 "g4" "nowhere" none
    ∷ []

run-is_balanced_example : is_balanced "KES" (run history empty) ≡ true
run-is_balanced_example = run-is_balanced history "KES"

abbrev table : Ledger
table = run (posting 10 "g1" fee_legs none (some "PLK1") none ∷ []) empty

table-IsValid : IsValid table
table-IsValid =
    run-IsValid (posting 10 "g1" fee_legs none (some "PLK1") none ∷ []) empty empty-IsValid

run-append_only_example : Extends table (run history table)
run-append_only_example = run-append_only history table

g5_new : entries_by_group "g5" table ≡ []
unfolding run entries_by_group post validate check_leg sort_by parse_direction is_blank add_leg
    insert totals_of lookup ◌+ℤ◌
g5_new = refl

g1_rows : is_empty (entries_by_group "g1" table) ≡ false
unfolding run entries_by_group post validate check_leg sort_by parse_direction is_blank add_leg
    insert totals_of lookup ◌+ℤ◌
g1_rows = refl

g1_known : entries_by_group "g1" table ≢ []
g1_known e = cc (g1_rows, ap is_empty e)

reverse-balance_example :
    let (r, t) = reverse 20 "g6" "g1" none table in
    (r ≡ ok "g6")
    × ((a c : String)
        → balance a c t ≡ balance a c table -ℤ sum_of (credit_in a c) (entries_by_group "g1" table))
reverse-balance_example = reverse-balance 20 "g6" "g1" none table table-IsValid g1_known

reverse-post_cancels_example :
    let (r, t) = post 20 "u" fee_legs (some "g5") none none table in
    let (r', u) = reverse 21 "g6" "g5" none t in
    (r ≡ ok "g5") × (r' ≡ ok "g6") × ((a c : String) → balance a c u ≡ balance a c table)
reverse-post_cancels_example =
    reverse-post_cancels 20 21 "u" "g6" "g5" fee_legs none none none table table-IsValid
      fee_legs-IsPosting g5_new

entries_by_account_lem_example :
    (length (entries_by_account "treasury" (negsuc 0) table) ≤ 1000)
    × All (λ e. e.account ≡ "treasury") (entries_by_account "treasury" (negsuc 0) table)
    × AreLatest
        (negsuc 0)
        (select (λ e. e.account == "treasury") table.rows)
        (entries_by_account "treasury" (negsuc 0) table)
entries_by_account_lem_example = entries_by_account_lem "treasury" (negsuc 0) table
