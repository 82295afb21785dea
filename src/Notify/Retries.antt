-- ===== src/Notify/Retries.antt =====
-- Any runs of the worker of linkmint-backend/notification-service over its deliveries: how often a
-- provider is called, that final deliveries rest, and that every delivery comes to its end.
use paylink.Prelude.{
  ℕ, zero, suc, ◌+◌, ◌≤◌, ◌≡◌, ◌⊎◌, inl, inr, refl, String, Bool, true, false, some, List, [], ◌∷◌,
  ◌++◌, arith, if◌then◌else◌, ◌==◌, string_eq, eq_iff_at, lookup, lookup-insert, Bool-cases, ◌∙◌,
  sym, subst, select, length, length-append, select-append, is_some, replicate,
}
use paylink.Notify.Delivery.{DeliveryRow, ChannelLookup, DeliveryStore, is_final, run_once}
use paylink.Notify.Account.{
  Attempt, unserved, delivered, retrying, given_up, Run, missing, resting, tried, run_once-Run,
  is_sent, is_failed,
}

-- one run of the task, with the providers as they answer then
pub record Task : Type 0 where
  pub channels : ChannelLookup
  pub now : ℕ
  pub id : String

unfoldable pub run_all : List Task → DeliveryStore → DeliveryStore
run_all [] s = s
run_all (task ∷ tasks) s = run_all tasks (run_once task.channels task.now task.id s).1

-- how often a provider was called for a delivery
abbrev pub calls_for : String → List String → ℕ
calls_for k sends = length (select (λ id. id == k) sends)

-- how many of the runs are for a delivery
abbrev pub runs_of : String → List Task → ℕ
runs_of k [] = 0
runs_of k (task ∷ tasks) = (if task.id == k then 1 else 0) + runs_of k tasks

abbrev bit : Bool → ℕ
bit b = if b then 1 else 0

-- The books of one delivery: each call of a provider is a failed attempt or the one that succeeded,
-- there are six at most, and a next attempt is due exactly after a failure.
pub record IsAccounted (row : DeliveryRow) (calls : ℕ) : Type 0 where
  pub each_counted : calls ≡ row.attempts + bit (is_sent row.status)
  pub at_most_six : calls ≤ 6
  pub room : row.attempts ≤ 5 + bit (is_final row.status)
  pub waiting : is_some row.next_retry_at ≡ is_failed row.status

Attempt-IsAccounted :
    {row row' : DeliveryRow} {n c : ℕ}
    → Attempt row row' n
    → is_final row.status ≡ false
    → IsAccounted row c
    → IsAccounted row' (c + n)
Attempt-IsAccounted (unserved message eq) f h = ground arith
Attempt-IsAccounted (delivered now eq) f h = ground arith
Attempt-IsAccounted (retrying message due lo eq) f h = ground arith
Attempt-IsAccounted (given_up message lo eq) f h = ground arith

-- An attempt ends the delivery or counts as one more.
Attempt-onward :
    {row row' : DeliveryRow} {n : ℕ}
    → Attempt row row' n
    → (is_final row'.status ≡ true) ⊎ (row'.attempts ≡ suc row.attempts)
Attempt-onward (unserved message eq) = ground arith
Attempt-onward (delivered now eq) = ground arith
Attempt-onward (retrying message due lo eq) = ground arith
Attempt-onward (given_up message lo eq) = ground arith

-- A delivery with its books, final or after at least so many attempts.
pub record Progress (k : String) (least : ℕ) (s : DeliveryStore) : Type 0 where
  pub row : DeliveryRow
  pub found : lookup k s.rows ≡ some row
  pub accounted : IsAccounted row (calls_for k s.sends)
  pub onward : (is_final row.status ≡ true) ⊎ (least ≤ row.attempts)

replicate-calls :
    (k id : String) (n : ℕ) → calls_for k (replicate n id) ≡ (if id == k then n else 0)
replicate-calls k id zero = ground arith
replicate-calls k id (suc n) = ground (arith, replicate-calls k id n)

append-calls :
    (k id : String) (n : ℕ) (sends : List String)
    → calls_for k (sends ++ replicate n id) ≡ calls_for k sends + (if id == k then n else 0)
append-calls k id n sends = rw (select-append (λ i. i == k) sends (replicate n id)) (
    length-append (select (λ i. i == k) sends) (select (λ i. i == k) (replicate n id))
    ∙ ground (arith, replicate-calls k id n))

append-own_calls :
    (k id : String) (n : ℕ) (sends : List String)
    → (id == k) ≡ true
    → calls_for k (sends ++ replicate n id) ≡ calls_for k sends + n
append-own_calls k id n sends b = append-calls k id n sends ∙ ground (arith, b)

append-other_calls :
    (k id : String) (n : ℕ) (sends : List String)
    → (id == k) ≡ false
    → calls_for k (sends ++ replicate n id) ≡ calls_for k sends
append-other_calls k id n sends b = append-calls k id n sends ∙ ground (arith, b)

rows_agree :
    (k id : String) (s : DeliveryStore) (row other : DeliveryRow)
    → lookup k s.rows ≡ some row
    → lookup id s.rows ≡ some other
    → (id == k) ≡ true
    → row ≡ other
rows_agree k id s row other h found b = ground (arith, h, found, b, eq_iff_at id k)

Run-Progress :
    {id : String} {s s' : DeliveryStore} {k : String} {least : ℕ}
    → Run id s s'
    → Progress k least s
    → Progress k ((if id == k then 1 else 0) + least) s'
Run-Progress {id} {s} {k = k} (missing absent) p = record {
  row = p.row;
  found = p.found;
  accounted = p.accounted;
  onward = ground (arith, absent, p.found, p.onward, eq_iff_at id k);
}
Run-Progress {id} {s} {k = k} (resting row found final) p = record {
  row = p.row;
  found = p.found;
  accounted = p.accounted;
  onward = ground (arith, found, final, p.found, p.onward, eq_iff_at id k);
}
Run-Progress {id} {s} {k = k} (tried row row' calls found going attempt) p =
    elim (Bool-cases (id == k)) [
      | inl b ↦
          let same = rows_agree k id s p.row row p.found found b in
          record {
            row = row';
            found = lookup-insert id k row' s.rows ∙ ground (arith, b);
            accounted = subst (IsAccounted row') (sym (append-own_calls k id calls s.sends b)) (
                Attempt-IsAccounted attempt going
                  (subst (λ r. IsAccounted r (calls_for k s.sends)) same p.accounted));
            onward = ground (arith, b, going, p.onward, same, Attempt-onward attempt);
          }
      | inr b ↦ record {
        row = p.row;
        found = lookup-insert id k row' s.rows ∙ ground (arith, b, p.found);
        accounted =
            subst (IsAccounted p.row) (sym (append-other_calls k id calls s.sends b)) p.accounted;
        onward = ground (arith, b, p.onward);
      }
    ]

run_all-Progress :
    (tasks : List Task) (s : DeliveryStore) (k : String) (least : ℕ)
    → Progress k least s
    → Progress k (runs_of k tasks + least) (run_all tasks s)
unfolding run_all
run_all-Progress [] s k least p = subst (λ n. Progress k n s) (omega arith) p
run_all-Progress (task ∷ tasks) s k least p =
    let step = Run-Progress (run_once-Run task.channels task.now task.id s) p in
    subst (λ n. Progress k n (run_all tasks (run_once task.channels task.now task.id s).1))
      (ground arith) (run_all-Progress tasks _ k _ step)

-- Whatever the providers answer and in whatever order deliveries are run, a delivery with consistent
-- books keeps them: each call of a provider was a failure or the one success, and there are at most
-- six.
pub run_all-IsAccounted :
    (tasks : List Task) (s : DeliveryStore) (k : String) (row : DeliveryRow)
    → lookup k s.rows ≡ some row
    → IsAccounted row (calls_for k s.sends)
    → (row' : DeliveryRow) × (lookup k (run_all tasks s).rows ≡ some row')
      × IsAccounted row' (calls_for k (run_all tasks s).sends)
run_all-IsAccounted tasks s k row found books =
    let p =
      run_all-Progress tasks s k 0
        (record { row = row; found = found; accounted = books; onward = inr (omega arith) }) in
    (p.row, p.found, p.accounted)

-- A delivery with consistent books that has been run six times is final: sent or exhausted.
pub run_all-final :
    (tasks : List Task) (s : DeliveryStore) (k : String) (row : DeliveryRow)
    → lookup k s.rows ≡ some row
    → IsAccounted row (calls_for k s.sends)
    → 6 ≤ runs_of k tasks
    → (row' : DeliveryRow) × (lookup k (run_all tasks s).rows ≡ some row')
      × (is_final row'.status ≡ true)
run_all-final tasks s k row found books many =
    let p =
      run_all-Progress tasks s k 0
        (record { row = row; found = found; accounted = books; onward = inr (omega arith) }) in
    (p.row, p.found, ground (arith, p.onward, p.accounted.room, many))

-- the two things that a final delivery keeps
abbrev pub Rests : String → DeliveryRow → DeliveryStore → DeliveryStore → Type 0
Rests k row s s' = (lookup k s'.rows ≡ some row) × (calls_for k s'.sends ≡ calls_for k s.sends)

Run-Rests :
    {id : String} {s s' : DeliveryStore}
    → Run id s s'
    → (k : String) (row : DeliveryRow) → lookup k s.rows ≡ some row
    → is_final row.status ≡ true
    → Rests k row s s'
Run-Rests (missing absent) k row h final = (h, refl)
Run-Rests (resting other found done) k row h final = (h, refl)
Run-Rests {id} {s} (tried other other' calls found going attempt) k row h final =
    elim (Bool-cases (id == k)) [
      | inl b ↦ ground (arith, final, going, rows_agree k id s row other h found b)
      | inr b ↦ (
        lookup-insert id k other' s.rows ∙ ground (arith, b, h),
        append-other_calls k id calls s.sends b,
      )
    ]

-- A final delivery is never changed again, and no provider is called for it.
pub run_all-Rests :
    (tasks : List Task) (s : DeliveryStore) (k : String) (row : DeliveryRow)
    → lookup k s.rows ≡ some row
    → is_final row.status ≡ true
    → Rests k row s (run_all tasks s)
unfolding run_all
run_all-Rests [] s k row h final = (h, refl)
run_all-Rests (task ∷ tasks) s k row h final =
    let first = Run-Rests (run_once-Run task.channels task.now task.id s) k row h final in
    let rest = run_all-Rests tasks _ k row first.0 final in (rest.0, rest.1 ∙ first.1)
