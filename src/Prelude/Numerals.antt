-- ===== src/Prelude/Numerals.antt =====
-- `str(n)` of a number that is not negative: its decimal digits.
use Prim.Native.Nat.{ℕ, zero, suc, ◌/◌, ◌%◌}
use Prim.Native.String.{String, ◌++◌ as append}
use mathlib.Core.Bool.{true, false}
use mathlib.Core.List.{List, [], ◌∷◌}
use paylink.Prelude.Tests.{ltb}
use paylink.Prelude.Lists.{get_or}

abbrev digits : List String
digits = "0" ∷ "1" ∷ "2" ∷ "3" ∷ "4" ∷ "5" ∷ "6" ∷ "7" ∷ "8" ∷ "9" ∷ []

abbrev digit : ℕ → String
digit n = get_or digits n ""

-- Each round divides by ten, so as many rounds as the number and one more are enough.
unfoldable pub show_within : ℕ → ℕ → String
show_within zero n = ""
show_within (suc rounds) n = elim (ltb n 10) [
  | true ↦ digit n
  | false ↦ append (show_within rounds (n / 10)) (digit (n % 10))
]

unfoldable pub show : ℕ → String
unfolding show_within
show n = show_within (suc n) n
