-- ===== src/Notify/Account.antt =====
-- The attempts of app/delivery/runner.py of linkmint-backend/notification-service as a state
-- machine of one delivery, and what every sequence of attempts keeps to.
use Prim.Native.String.{◌++◌ as append}
use paylink.Prelude.{
  ℕ, zero, suc, ◌+◌, ◌≤◌, ◌≡◌, inl, inr, refl, String, Bool, true, false, none, some, [], ◌++◌,
  arith, string_eq, lookup, insert, Option-cases, Bool-cases, Result-cases, sym, subst, replicate,
  append-nil,
}
use paylink.Notify.Delivery.{
  DeliveryStatus, sent, failed, DeliveryRow, ChannelLookup, DeliveryStore, next_countdown, is_final,
  run_once, mark_sent, mark_failed, mark_exhausted, as_sent, as_failed, as_exhausted, send_failed,
}

abbrev pub is_sent : DeliveryStatus → Bool
is_sent sent = true
is_sent _ = false

abbrev pub is_failed : DeliveryStatus → Bool
is_failed failed = true
is_failed _ = false

-- What one attempt does to a delivery that is not final, with the number of calls of a provider.
pub data Attempt (row row' : DeliveryRow) : ℕ → Type 0 where
  unserved : (message : String) → row' ≡ as_exhausted row.attempts message row → Attempt row row' 0
  delivered : (now : ℕ) → row' ≡ as_sent now row → Attempt row row' 1
  retrying :
      (message : String) (due : ℕ)
      → row.attempts ≤ 4
      → row' ≡ as_failed (suc row.attempts) message due row
      → Attempt row row' 1
  given_up :
      (message : String)
      → 5 ≤ row.attempts
      → row' ≡ as_exhausted (suc row.attempts) message row
      → Attempt row row' 1

-- What a run does: nothing, or one attempt of the delivery that it is for.
pub data Run (id : String) (s : DeliveryStore) : DeliveryStore → Type 0 where
  missing : lookup id s.rows ≡ none → Run id s s
  resting :
      (row : DeliveryRow) → lookup id s.rows ≡ some row → is_final row.status ≡ true → Run id s s
  tried :
      (row row' : DeliveryRow) (calls : ℕ)
      → lookup id s.rows ≡ some row
      → is_final row.status ≡ false
      → Attempt row row' calls
      → Run id s (record { rows = insert id row' s.rows; sends = s.sends ++ replicate calls id })

countdown_bound : (n m : ℕ) → next_countdown n ≡ some m → n ≤ 5
unfolding next_countdown
countdown_bound zero m e = omega arith
countdown_bound (suc zero) m e = omega arith
countdown_bound (suc (suc zero)) m e = omega arith
countdown_bound (suc (suc (suc zero))) m e = omega arith
countdown_bound (suc (suc (suc (suc zero)))) m e = omega arith
countdown_bound (suc (suc (suc (suc (suc zero))))) m e = omega arith
countdown_bound (suc (suc (suc (suc (suc (suc n)))))) m e = cc

countdown_end : (n : ℕ) → next_countdown (suc n) ≡ none → 5 ≤ n
unfolding next_countdown
countdown_end zero e = cc
countdown_end (suc zero) e = cc
countdown_end (suc (suc zero)) e = cc
countdown_end (suc (suc (suc zero))) e = cc
countdown_end (suc (suc (suc (suc zero)))) e = cc
countdown_end (suc (suc (suc (suc (suc n))))) e = omega arith

module _ (channels : ChannelLookup) (now : ℕ) (id : String) (s : DeliveryStore) where
  ran :
      {s' : DeliveryStore}
      → (run_once channels now id s).1 ≡ s'
      → Run id s s'
      → Run id s (run_once channels now id s).1
  ran e r = subst (Run id s) (sym e) r

  -- A run is one step of the machine.
  pub run_once-Run : Run id s (run_once channels now id s).1
  unfolding run_once mark_sent mark_exhausted send_failed mark_failed
  run_once-Run = elim (Option-cases (lookup id s.rows)) [
    | inl e ↦ ran (ground (arith, e)) (missing e)
    | inr (row, e) ↦ elim (Bool-cases (is_final row.status)) [
      | inl f ↦ ran (ground (arith, e, f)) (resting row e f)
      | inr f ↦ elim (Option-cases (channels row.channel)) [
        | inl c ↦
            let message = append "no provider for " row.channel in
            ran
              {s' = record s {
                rows = insert id (as_exhausted row.attempts message row) s.rows;
                sends = s.sends ++ [];
              }}
              (ground (arith, e, f, c, append-nil s.sends))
              (tried row (as_exhausted row.attempts message row) 0 e f (unserved message refl))
        | inr (send, c) ↦ elim (Result-cases (send row.recipient row.body row.subject)) [
          | inr (ref, d) ↦
              ran (ground (arith, e, f, c, d))
                (tried row (as_sent now row) 1 e f (delivered now refl))
          | inl (message, d) ↦ elim (Option-cases (next_countdown (suc row.attempts))) [
            | inl n ↦ ran (ground (arith, e, f, c, d, n)) (
                tried row (as_exhausted (suc row.attempts) message row) 1 e f
                  (given_up message (countdown_end row.attempts n) refl))
            | inr (wait, n) ↦ ran (ground (arith, e, f, c, d, n)) (
                tried row (as_failed (suc row.attempts) message (now + wait) row) 1 e f (
                  retrying message (now + wait)
                    (omega (arith, countdown_bound (suc row.attempts) wait n)) refl))
          ]
        ]
      ]
    ]
  ]
