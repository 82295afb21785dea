-- ===== src/Notify/Keys.antt =====
-- What the dedupe keys of the notification store find, before and after a row is written.
use paylink.Prelude.{
  ◌≡◌, refl, String, true, Option, none, some, is_some, [], ◌∷◌, Table, lookup, insert, string_eq,
  ◌==◌, eq_iff_at, arith, Bool-cases, Option-cases, inl, inr, ◌⊎◌, if◌then◌else◌, ok,
}
use paylink.Notify.Delivery.{DeliveryRow}
use paylink.Notify.Intake.{find_by, State, insert_delivery}
use paylink.Notify.Fanout.{new_delivery, put_delivery}

module _ {ℓ} {Row : Type ℓ} (key_of : Row → String) where
  -- A new row is found under its key, unless an older one is.
  pub find_by-insert :
      (id key : String) (row : Row) (rows : Table String Row)
      → lookup id rows ≡ none
      → find_by key_of key (insert id row rows) ≡ elim (find_by key_of key rows) [
        | some other ↦ some other
        | none ↦ if key_of row == key then some id else none
      ]
  unfolding find_by insert lookup
  find_by-insert id key row [] h = ground arith
  find_by-insert id key row (entry ∷ rows) h = elim (Bool-cases (entry.0 == id)) [
    | inl e ↦ ground (arith, e, h)
    | inr e ↦ ground (
      arith,
      e,
      Bool-cases (key_of entry.1 == key),
      find_by-insert id key row rows (ground (arith, e, h)),
    )
  ]

  -- Whatever a key finds in the first table it finds in the second.
  abbrev pub Keeps : Table String Row → Table String Row → Type 0
  Keeps rows rows' =
      (key other : String)
      → find_by key_of key rows ≡ some other
      → find_by key_of key rows' ≡ some other

  pub insert-Keeps :
      (id : String) (row : Row) (rows : Table String Row)
      → lookup id rows ≡ none
      → Keeps rows (insert id row rows)
  insert-Keeps id row rows h key other e = rw (find_by-insert id key row rows h, e) refl

  pub find_by-new :
      (id : String) (row : Row) (rows : Table String Row)
      → lookup id rows ≡ none
      → find_by key_of (key_of row) rows ≡ none
      → find_by key_of (key_of row) (insert id row rows) ≡ some id
  find_by-new id row rows h e =
      ground
        (arith, find_by-insert id (key_of row) row rows h, e, eq_iff_at (key_of row) (key_of row))

abbrev pub found : String → State → Option String
found key s = find_by (λ row. row.dedupe_key) key s.working.deliveries

abbrev pub with_delivery : String → DeliveryRow → State → State
with_delivery id row s = record s {
  working = record s.working { deliveries = insert id row s.working.deliveries };
}

-- How a delivery is put: an older one stands under its key, it is new, or its identifier is taken.
pub put_delivery-cases :
    (id : String) (row : DeliveryRow) (s : State)
    → ((other : String) × (found row.dedupe_key s ≡ some other)
        × (put_delivery id row s ≡ (ok (other ∷ [], []), s)))
      ⊎ (((found row.dedupe_key s ≡ none)
            × (lookup id s.working.deliveries ≡ none)
            × (put_delivery id row s ≡ (ok (id ∷ [], id ∷ []), with_delivery id row s)))
          ⊎ ((is_some (lookup id s.working.deliveries) ≡ true)
              × (put_delivery id row s ≡ (ok ([], []), s))))
unfolding put_delivery new_delivery insert_delivery
put_delivery-cases id row s = elim (Option-cases (found row.dedupe_key s)) [
  | inr (other, a) ↦ inl (other, a, ground (arith, a))
  | inl a ↦ elim (Option-cases (lookup id s.working.deliveries)) [
    | inl b ↦ inr (inl (a, b, ground (arith, a, b)))
    | inr (old, b) ↦ inr (inr ((ground (arith, b)), (ground (arith, a, b))))
  ]
]
