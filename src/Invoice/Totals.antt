-- ===== src/Invoice/Totals.antt =====
-- The totals of linkmint-backend/invoice-subscription/app/domain/models.py against exact arithmetic.
use paylink.Prelude.{
  ℕ, ◌+◌, ◌*◌, ◌≤◌, List, [], ◌∷◌, ◌++◌, map, ◌≡◌, ◌∙◌, arith, length, round0_bounds, append_assoc,
  append-nil, sym,
}
use paylink.Invoice.Model.{
  LineInput, ComputedLine, computed_line, line_total, line_tax, compute_from, compute_totals,
}

-- the sum of a number over the items of a list
abbrev pub sum_by : (LineInput → ℕ) → List LineInput → ℕ
sum_by f [] = 0
sum_by f (line ∷ lines) = f line + sum_by f lines

-- a line's price in ten-thousandths of a minor unit, not rounded
abbrev pub exact : LineInput → ℕ
exact line = line.quantity * line.unit_price

-- What the totals of some lines should be.
pub record IsTotalling (lines : List LineInput) : Type 0 where
  pub itemised : (compute_totals lines).lines ≡ map computed_line lines
  pub subtotalled : (compute_totals lines).subtotal ≡ sum_by line_total lines
  pub taxed : (compute_totals lines).tax ≡ sum_by line_tax lines
  pub totalled : (compute_totals lines).total ≡ sum_by line_total lines + sum_by line_tax lines
  pub not_far_above :
      (compute_totals lines).subtotal * 10000 ≤ sum_by exact lines + 5000 * length lines
  pub not_far_below :
      sum_by exact lines ≤ (compute_totals lines).subtotal * 10000 + 5000 * length lines

from_lines :
    (computed : List ComputedLine) (subtotal tax : ℕ) (lines : List LineInput)
    → (compute_from computed subtotal tax lines).lines ≡ computed ++ map computed_line lines
unfolding compute_from
from_lines computed subtotal tax [] = sym (append-nil computed)
from_lines computed subtotal tax (ln ∷ lines) =
    from_lines (computed ++ computed_line ln ∷ []) (subtotal + line_total ln) (tax + line_tax ln)
      lines
    ∙ append_assoc computed (computed_line ln ∷ []) (map computed_line lines)

from_sums :
    (computed : List ComputedLine) (subtotal tax : ℕ) (lines : List LineInput)
    → let c = compute_from computed subtotal tax lines in
      (c.subtotal ≡ subtotal + sum_by line_total lines)
      × (c.tax ≡ tax + sum_by line_tax lines)
      × (c.total ≡ c.subtotal + c.tax)
unfolding compute_from
from_sums computed subtotal tax [] = ground arith
from_sums computed subtotal tax (ln ∷ lines) =
    let rest =
      from_sums (computed ++ computed_line ln ∷ []) (subtotal + line_total ln) (tax + line_tax ln)
        lines in
    (omega (arith, rest.0), omega (arith, rest.1), rest.2)

rounding :
    (lines : List LineInput)
    → (sum_by line_total lines * 10000 ≤ sum_by exact lines + 5000 * length lines)
      × (sum_by exact lines ≤ sum_by line_total lines * 10000 + 5000 * length lines)
unfolding line_total
rounding [] = (omega arith, omega arith)
rounding (ln ∷ lines) =
    let here = round0_bounds (exact ln) in
    let rest = rounding lines in
    (omega (arith, here.0, here.1, rest.0, rest.1), omega (arith, here.0, here.1, rest.0, rest.1))

-- The computed lines are the given ones with their totals, the sums are those of the lines, and the
-- subtotal is off the exact price by at most half a minor unit a line.
pub compute_totals_lem : (lines : List LineInput) → IsTotalling lines
unfolding compute_totals
compute_totals_lem lines =
    let sums = from_sums [] 0 0 lines in
    let bounds = rounding lines in
    record {
      itemised = from_lines [] 0 0 lines;
      subtotalled = omega (arith, sums.0);
      taxed = omega (arith, sums.1);
      totalled = omega (arith, sums.0, sums.1, sums.2);
      not_far_above = omega (arith, sums.0, bounds.0);
      not_far_below = omega (arith, sums.0, bounds.1);
    }
