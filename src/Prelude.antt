-- ===== src/Prelude.antt =====
-- The names that every component shares: the libraries', passed on, tests on numbers, lists
-- measured by native numbers, integers, tables, and methods that may raise.
pub mod Tests
pub mod Lists
pub mod Int
pub mod Equality
pub mod Tables
pub mod Entries
pub mod Actions
pub mod Texts
pub mod Letters
pub mod Sorting
pub mod Uniqueness
pub mod Sessions
pub mod Decimals
pub mod Numerals
pub use Tests.*
pub use Lists.*
unfoldable pub use Int.*
pub use Equality.*
unfoldable pub use Tables.*
pub use Entries.*
pub use Actions.*
unfoldable pub use Texts.*
unfoldable pub use Letters.*
unfoldable pub use Sorting.*
pub use Uniqueness.*
pub use Sessions.*
unfoldable pub use Decimals.*
unfoldable pub use Numerals.*
pub use Prim.Native.Nat.{ℕ, zero, suc, ◌+◌, ◌-◌, ◌*◌, ◌/◌, ◌%◌, ◌^◌, ◌≤◌, ◌<◌, max, min}
pub use Prim.Native.String.{String}
pub use mathlib.Core.Path.{◌≡◌, refl, sym, ap, ◌∙◌, subst}
pub use mathlib.Core.Logic.{◌≢◌, ◌↔◌, ◌⊎◌, inl, inr}
pub use mathlib.Core.Bool.{Bool, true, false, not, ◌&&◌, ◌||◌}
pub use mathlib.Core.Option.{Option, none, some}
pub use mathlib.Core.List.{List, [], ◌∷◌, ◌++◌, map, append-nil, append_assoc}
pub use native.Mathlib.Omega.{arith}
