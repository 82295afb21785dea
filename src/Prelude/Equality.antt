-- ===== src/Prelude/Equality.antt =====
-- Keys that the program compares with Python's `==`: identifiers (texts) and numbers.
use Prim.Native.Nat.{ℕ}
use Prim.Native.String.{String}
use mathlib.Core.Path.{◌≡◌}
use mathlib.Core.Logic.{◌↔◌}
use mathlib.Core.Bool.{Bool, true}
use text.Mathlib.Text.{◌==◌ as same_text}
use text.Mathlib.TextEquality.{eq_iff as same_text_iff}
use paylink.Prelude.Tests.{nat_beq, nat_beq_iff}

-- A test of equality that is right.
pub record Eq {ℓ} (K : Type ℓ) : Type ℓ where
  pub same : K → K → Bool
  pub same_iff : (j k : K) → (same j k ≡ true) ↔ (j ≡ k)

module _ {ℓ} {K : Type ℓ} ⦃keys : Eq K⦄ where
  infix 50 ◌==◌
  abbrev pub ◌==◌ : K → K → Bool
  j == k = keys.same j k

  -- the law at two keys, for the list of a tactic
  pub eq_iff_at : (j k : K) → ((j == k) ≡ true) ↔ (j ≡ k)
  eq_iff_at j k = keys.same_iff j k

instance abbrev pub string_eq : Eq String
string_eq = record { same = same_text; same_iff = same_text_iff }

instance abbrev pub nat_eq : Eq ℕ
nat_eq = record { same = nat_beq; same_iff = nat_beq_iff }
