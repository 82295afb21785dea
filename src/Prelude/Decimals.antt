-- ===== src/Prelude/Decimals.antt =====
-- Decimal amounts of the services, scaled to whole numbers. `round0 n d` is the fraction n / d rounded
-- to the nearest whole number, ties up: `quantize(Decimal(1), ROUND_HALF_UP)` for amounts that are
-- not negative.
use Prim.Native.Nat.{ℕ, ◌+◌, ◌*◌, ◌/◌, ◌≤◌, ◌<◌}
use native.Mathlib.Omega.{arith}

unfoldable pub round0 : ℕ → ℕ → ℕ
round0 n d = (2 * n + d) / (2 * d)

-- four decimals
abbrev pub scale : ℕ
scale = 10000

-- The nearest whole number: off by half a unit at most, and never down from a tie.
pub round0_bounds :
    (n : ℕ)
    → (2 * (scale * round0 n scale) ≤ 2 * n + scale)
      × (2 * n < 2 * (scale * round0 n scale) + scale)
unfolding round0
round0_bounds n = omega arith
