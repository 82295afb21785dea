-- ===== src/Prelude/Letters.antt =====
-- `str.upper` and `str.lower` on the letters of ASCII, which currency codes and addresses are made
-- of; other characters stay.
use Prim.Native.Char.{Char, code}
use Prim.Native.Nat.{ℕ}
use Prim.Native.String.{String}
use mathlib.Core.Option.{none, some}
use mathlib.Core.List.{[], ◌∷◌}
use paylink.Prelude.Equality.{nat_eq}
use paylink.Prelude.Tables.{Table, lookup}

abbrev capitals : Table ℕ Char
capitals =
    (97, "A")
    ∷ (98, "B")
    ∷ (99, "C")
    ∷ (100, "D")
    ∷ (101, "E")
    ∷ (102, "F")
    ∷ (103, "G")
    ∷ (104, "H")
    ∷ (105, "I")
    ∷ (106, "J")
    ∷ (107, "K")
    ∷ (108, "L")
    ∷ (109, "M")
    ∷ (110, "N")
    ∷ (111, "O")
    ∷ (112, "P")
    ∷ (113, "Q")
    ∷ (114, "R")
    ∷ (115, "S")
    ∷ (116, "T")
    ∷ (117, "U")
    ∷ (118, "V")
    ∷ (119, "W")
    ∷ (120, "X")
    ∷ (121, "Y")
    ∷ (122, "Z")
    ∷ []

unfoldable pub upper_char : Char → Char
unfolding lookup
upper_char c = elim (lookup (code c) capitals) [ none ↦ c | some capital ↦ capital ]

unfoldable pub upper : String → String
unfolding upper_char
upper String.[] = ""
upper (String.◌∷◌ c s) = String.◌∷◌ (upper_char c) (upper s)

abbrev small_letters : Table ℕ Char
small_letters =
    (65, "a")
    ∷ (66, "b")
    ∷ (67, "c")
    ∷ (68, "d")
    ∷ (69, "e")
    ∷ (70, "f")
    ∷ (71, "g")
    ∷ (72, "h")
    ∷ (73, "i")
    ∷ (74, "j")
    ∷ (75, "k")
    ∷ (76, "l")
    ∷ (77, "m")
    ∷ (78, "n")
    ∷ (79, "o")
    ∷ (80, "p")
    ∷ (81, "q")
    ∷ (82, "r")
    ∷ (83, "s")
    ∷ (84, "t")
    ∷ (85, "u")
    ∷ (86, "v")
    ∷ (87, "w")
    ∷ (88, "x")
    ∷ (89, "y")
    ∷ (90, "z")
    ∷ []

unfoldable pub lower_char : Char → Char
unfolding lookup
lower_char c = elim (lookup (code c) small_letters) [ none ↦ c | some letter ↦ letter ]

unfoldable pub lower : String → String
unfolding lower_char
lower String.[] = ""
lower (String.◌∷◌ c s) = String.◌∷◌ (lower_char c) (lower s)
