-- ===== src/Invoice/Model.antt =====
-- linkmint-backend/invoice-subscription/app/domain/models.py: statuses and the totals of lines.
-- Quantities and tax rates are whole numbers of ten-thousandths, prices are minor units; none is
-- negative (app/api/v1/schemas.py). Products of more than 28 digits, which Python's decimal context
-- would round, are outside the model.
use paylink.Prelude.{
  ℕ, ◌+◌, ◌*◌, String, List, [], ◌∷◌, ◌++◌, Bool, true, false, ltb, if◌then◌else◌, round0, scale,
}

pub data InvoiceStatus : Type 0 where
  draft opened paid void overdue : InvoiceStatus

abbrev pub is_draft : InvoiceStatus → Bool
is_draft draft = true
is_draft _ = false

abbrev pub is_opened : InvoiceStatus → Bool
is_opened opened = true
is_opened _ = false

abbrev pub is_paid : InvoiceStatus → Bool
is_paid paid = true
is_paid _ = false

abbrev pub is_void : InvoiceStatus → Bool
is_void void = true
is_void _ = false

-- `status in (OPEN, OVERDUE)`
abbrev pub is_payable : InvoiceStatus → Bool
is_payable opened = true
is_payable overdue = true
is_payable _ = false

pub record LineInput : Type 0 where
  pub description : String
  pub quantity : ℕ
  pub unit_price : ℕ
  pub tax_rate : ℕ

pub record ComputedLine : Type 0 where
  pub description : String
  pub quantity : ℕ
  pub unit_price : ℕ
  pub total : ℕ
  pub tax_rate : ℕ

pub record ComputedTotals : Type 0 where
  pub lines : List ComputedLine
  pub subtotal : ℕ
  pub tax : ℕ
  pub total : ℕ

unfoldable pub line_total : LineInput → ℕ
line_total ln = round0 (ln.quantity * ln.unit_price) scale

unfoldable pub line_tax : LineInput → ℕ
unfolding line_total
line_tax ln = round0 (line_total ln * ln.tax_rate) scale

abbrev pub computed_line : LineInput → ComputedLine
computed_line ln = record {
  description = ln.description;
  quantity = ln.quantity;
  unit_price = ln.unit_price;
  total = line_total ln;
  tax_rate = ln.tax_rate;
}

-- the loop, over what it has computed so far
unfoldable pub compute_from : List ComputedLine → ℕ → ℕ → List LineInput → ComputedTotals
compute_from computed subtotal tax [] = record {
  lines = computed;
  subtotal = subtotal;
  tax = tax;
  total = subtotal + tax;
}
compute_from computed subtotal tax (ln ∷ lines) =
    compute_from (computed ++ computed_line ln ∷ []) (subtotal + line_total ln) (tax + line_tax ln)
      lines

unfoldable pub compute_totals : List LineInput → ComputedTotals
unfolding compute_from
compute_totals lines = compute_from [] 0 0 lines

-- the status that a reader is shown
unfoldable pub effective_status : InvoiceStatus → ℕ → ℕ → InvoiceStatus
effective_status opened due_at now = if ltb due_at now then overdue else opened
effective_status status _ _ = status
