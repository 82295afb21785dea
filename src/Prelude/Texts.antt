-- ===== src/Prelude/Texts.antt =====
-- Python's view of a text: emptiness, what `str.strip` removes, and where a text contains another.
use Prim.Native.Char.{code}
use Prim.Native.Nat.{ℕ}
use Prim.Native.String.{String}
use mathlib.Core.Bool.{Bool, true, false, ◌&&◌, ◌||◌}
use paylink.Prelude.Tests.{leb, nat_beq, if◌then◌else◌}

-- the code points for which `str.isspace` holds, which `str.strip` removes at both ends
unfoldable pub is_space : ℕ → Bool
is_space c =
    leb 9 c && leb c 13
    || leb 28 c && leb c 32
    || nat_beq c 133
    || nat_beq c 160
    || nat_beq c 5760
    || leb 8192 c && leb c 8202
    || leb 8232 c && leb c 8233
    || nat_beq c 8239
    || nat_beq c 8287
    || nat_beq c 12288

-- `not s.strip()`: nothing is left when only white space stands in `s`
unfoldable pub is_blank : String → Bool
unfolding is_space
is_blank String.[] = true
is_blank (String.◌∷◌ c s) = is_space (code c) && is_blank s

unfoldable pub is_empty_text : String → Bool
is_empty_text String.[] = true
is_empty_text (String.◌∷◌ c s) = false

-- `s.lstrip()`, `s.rstrip()`, `s.strip()`
unfoldable pub lstrip : String → String
unfolding is_space
lstrip String.[] = ""
lstrip (String.◌∷◌ c s) = let rest = lstrip s in if is_space (code c) then rest else String.◌∷◌ c s

unfoldable pub rstrip : String → String
unfolding is_space is_empty_text
rstrip String.[] = ""
rstrip (String.◌∷◌ c s) =
    let rest = rstrip s in if is_empty_text rest && is_space (code c) then "" else String.◌∷◌ c rest

unfoldable pub strip : String → String
unfolding lstrip rstrip
strip s = rstrip (lstrip s)

unfoldable pub starts_with : (prefix s : String) → Bool
starts_with String.[] s = true
starts_with (String.◌∷◌ c prefix) String.[] = false
starts_with (String.◌∷◌ c prefix) (String.◌∷◌ d s) =
    nat_beq (code c) (code d) && starts_with prefix s

-- `part in s`
unfoldable pub contains : (part s : String) → Bool
unfolding starts_with
contains part String.[] = starts_with part ""
contains part (String.◌∷◌ c s) = starts_with part (String.◌∷◌ c s) || contains part s
