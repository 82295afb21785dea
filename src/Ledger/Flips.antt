-- ===== src/Ledger/Flips.antt =====
-- The flipped legs that `reverse` of linkmint-backend/ledger-python posts are a posting again.
use paylink.Prelude.{
  String, ◌≡◌, ◌⊎◌, inl, inr, refl, List, [], ◌∷◌, map, sym, ◌∙◌, ◌==◌, string_eq, All, any,
}
use paylink.Ledger.Entry.{Direction, dr, cr, value, flip}
use paylink.Ledger.Postings.{IsWellFormed, IsPosting, total, is_side}
use paylink.Ledger.Store.{Entry, flipped_leg}
use paylink.Ledger.Rows.{leg_of}

flip-dr : (d : Direction) → (value (flip d) == "DR") ≡ (value d == "CR")
flip-dr dr = refl
flip-dr cr = refl

flip-cr : (d : Direction) → (value (flip d) == "CR") ≡ (value d == "DR")
flip-cr dr = refl
flip-cr cr = refl

value_sided : (d : Direction) → (value d ≡ "DR") ⊎ (value d ≡ "CR")
value_sided dr = inl refl
value_sided cr = inr refl

total-flipped_dr :
    (c : String) (es : List Entry) → total dr c (map flipped_leg es) ≡ total cr c (map leg_of es)
total-flipped_dr c [] = refl
total-flipped_dr c (e ∷ es) = rw (flip-dr e.direction, total-flipped_dr c es)

total-flipped_cr :
    (c : String) (es : List Entry) → total cr c (map flipped_leg es) ≡ total dr c (map leg_of es)
total-flipped_cr c [] = refl
total-flipped_cr c (e ∷ es) = rw (flip-cr e.direction, total-flipped_cr c es)

any-flipped_dr :
    (es : List Entry) → any (is_side dr) (map flipped_leg es) ≡ any (is_side cr) (map leg_of es)
any-flipped_dr [] = refl
any-flipped_dr (e ∷ es) = rw (flip-dr e.direction, any-flipped_dr es)

any-flipped_cr :
    (es : List Entry) → any (is_side cr) (map flipped_leg es) ≡ any (is_side dr) (map leg_of es)
any-flipped_cr [] = refl
any-flipped_cr (e ∷ es) = rw (flip-cr e.direction, any-flipped_cr es)

flipped-IsWellFormed :
    (es : List Entry) → All IsWellFormed (map leg_of es) → All IsWellFormed (map flipped_leg es)
flipped-IsWellFormed [] h = tt
flipped-IsWellFormed (e ∷ es) h = (
  record {
    sided = value_sided (flip e.direction);
    account_named = h.0.account_named;
    currency_named = h.0.currency_named;
    positive = h.0.positive;
  },
  flipped-IsWellFormed es h.1,
)

-- The flipped legs of a posting are a posting.
pub flipped_leg-IsPosting :
    (es : List Entry) → IsPosting (map leg_of es) → IsPosting (map flipped_leg es)
flipped_leg-IsPosting es p = record {
  well_formed = flipped-IsWellFormed es p.well_formed;
  debited = any-flipped_dr es ∙ p.credited;
  credited = any-flipped_cr es ∙ p.debited;
  balanced = λ c. total-flipped_dr c es ∙ sym (p.balanced c) ∙ sym (total-flipped_cr c es);
}
