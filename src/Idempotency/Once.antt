-- ===== src/Idempotency/Once.antt =====
-- How often the action of an event runs under linkmint-backend/idempotency-python.
use paylink.Prelude.{
  ℕ, ◌+◌, String, Bool, true, false, ◌&&◌, ◌||◌, not, All, Option, none, some, List, [], ◌∷◌,
  string_eq, ◌==◌, eq_iff_at, ltb, Result, Result-cases, map_result, ok, err, Exec, ◌≡◌, inl, inr,
  refl, ap, ◌∙◌, arith, Bool-cases,
}
use paylink.Idempotency.Redis.{RedisLike}
use paylink.Idempotency.Consumer.{
  consumer_key, guarded, if_reserved, run_once, Marks, is_marked, after_mark, run_once_in, settled,
}

-- What a second delivery does: nothing after a success, and after a raise what the action does.
abbrev pub Follows :
    {E K W A : Type 0} → Result E A → Result E A → K → W → Result E (Option A) × K × W → Type 0
Follows (ok a) retry keys w again = again ≡ (ok none, keys, w)
Follows (err e) retry keys w again = again.0 ≡ map_result some retry

module _ {E W A : Type 0} (redis : RedisLike String) (service : String) (ttl : ℕ) where
  -- Who finds no marker sets it and runs the action.
  run_free :
      (now : ℕ) (scope dedupe_key : String) (action : Exec E W A) (keys : redis.Keys) (w : W)
      → let name = consumer_key service scope dedupe_key in
        redis.get now name keys ≡ none
        → run_once redis service ttl now scope dedupe_key action (keys, w)
          ≡ guarded redis name (redis.set now ttl name "1" keys) (action w)
  unfolding run_once if_reserved
  run_free now scope dedupe_key action keys w free =
      let name = consumer_key service scope dedupe_key in
      ap (if_reserved redis name action w) (redis.set_nx-free now ttl name "1" keys free)

  guarded_result :
      (name : String) (keys : redis.Keys) (r : Result E A × W)
      → (guarded redis name keys r).0 ≡ map_result some r.0
  unfolding guarded
  guarded_result name keys (ok a, w) = refl
  guarded_result name keys (err e, w) = refl

  -- Who finds a marker does nothing.
  run_taken :
      (now : ℕ) (scope dedupe_key : String) (action : Exec E W A) (old : String) (keys : redis.Keys)
      (w : W)
      → redis.get now (consumer_key service scope dedupe_key) keys ≡ some old
      → run_once redis service ttl now scope dedupe_key action (keys, w) ≡ (ok none, keys, w)
  unfolding run_once if_reserved
  run_taken now scope dedupe_key action old keys w taken =
      let name = consumer_key service scope dedupe_key in
      ap (if_reserved redis name action w) (redis.set_nx-taken now ttl name "1" old keys taken)

  -- An event whose action has succeeded is skipped for the time to live, and the next delivery of
  -- one whose action has raised runs the action again.
  pub run_once_again :
      (now now' : ℕ) (scope dedupe_key : String) (action : Exec E W A) (keys : redis.Keys) (w : W)
      → redis.get now (consumer_key service scope dedupe_key) keys ≡ none
      → ltb now' (now + ttl) ≡ true
      → let run = run_once redis service ttl now scope dedupe_key action (keys, w) in
        let again = run_once redis service ttl now' scope dedupe_key action (run.1, run.2) in
        Follows (action w).0 (action (action w).1).0 run.1 run.2 again
  unfolding guarded
  run_once_again now now' scope dedupe_key action keys w free soon =
      let name = consumer_key service scope dedupe_key in
      let first = redis.set_nx-free now ttl name "1" keys free in
      let set = redis.set now ttl name "1" keys in
      let w1 = (action w).1 in
      elim (Result-cases (action w).0) [
        | inr (a, e) ↦
            let ran : run_once redis service ttl now scope dedupe_key action (keys, w)
                ≡ (ok (some a), set, w1) =
              run_free now scope dedupe_key action keys w free
              ∙ ap (λ r. guarded redis name set (r, w1)) e in
            rw (e, ran)
              (run_taken now' scope dedupe_key action "1" set w1 (
                ground (
                  arith,
                  redis.get-set now' now ttl name name "1" keys,
                  eq_iff_at name name,
                  soon,
                )))
        | inl (x, e) ↦
            let ran : run_once redis service ttl now scope dedupe_key action (keys, w)
                ≡ (err x, redis.delete name set, w1) =
              run_free now scope dedupe_key action keys w free
              ∙ ap (λ r. guarded redis name set (r, w1)) e in
            let gone : redis.get now' name (redis.delete name set) ≡ none =
              ground (arith, redis.get-delete now' name name set, eq_iff_at name name) in
            let retried : run_once redis service ttl now' scope dedupe_key action
                  (redis.delete name set, w1)
                ≡ guarded redis name (redis.set now' ttl name "1" (redis.delete name set))
                    (action w1) =
              run_free now' scope dedupe_key action (redis.delete name set) w1 gone in
            rw (e, ran, retried)
              (guarded_result name (redis.set now' ttl name "1" (redis.delete name set))
                (action w1))
      ]

pub record Delivery (E W A : Type 0) : Type 0 where
  pub scope : String
  pub dedupe_key : String
  pub action : Exec E W A

-- whether a delivery is of an event
abbrev pub is_of : {E W A : Type 0} → (scope dedupe_key : String) → Delivery E W A → Bool
is_of scope dedupe_key d = d.scope == scope && d.dedupe_key == dedupe_key

abbrev pub is_answer : {E A : Type 0} → Result E (Bool × Option A) → Bool
is_answer (ok _) = true
is_answer (err _) = false

abbrev pub bit : Bool → ℕ
bit true = 1
bit false = 0

module _ {E W A : Type 0} where
  abbrev pub receive : Delivery E W A → Marks × W → Result E (Bool × Option A) × Marks × W
  receive d s = run_once_in d.scope d.dedupe_key d.action s

  -- The deliveries one after another, each in a transaction of its own.
  unfoldable pub receive_all : List (Delivery E W A) → Marks × W → Marks × W
  receive_all [] s = s
  receive_all (d ∷ deliveries) s = receive_all deliveries (settled s (receive d s))

  -- whether some delivery of an event is answered without an error
  unfoldable pub answered : (scope dedupe_key : String) → List (Delivery E W A) → Marks × W → Bool
  answered scope dedupe_key [] s = false
  answered scope dedupe_key (d ∷ deliveries) s =
      is_of scope dedupe_key d && is_answer (receive d s).0
      || answered scope dedupe_key deliveries (settled s (receive d s))

  -- A measure of the handler's tables that an action of the event raises by one when it succeeds,
  -- and that the actions of other events keep.
  abbrev pub Counts : (measure : W → ℕ) (scope dedupe_key : String) → Delivery E W A → Type 0
  Counts measure scope dedupe_key d =
      (w : W) (a : A)
      → (d.action w).0 ≡ ok a
      → measure (d.action w).1 ≡ measure w + bit (is_of scope dedupe_key d)

  -- Over any deliveries, whose actions may raise, the tables of the handler take the effect of an
  -- event exactly once if the event was not marked at the start and one of its deliveries is answered
  -- without an error, and never otherwise. The effect is told by any measure of the tables that an
  -- action of the event raises by one when it succeeds and that other events' actions keep.
  pub receive_all_once :
      (measure : W → ℕ) (scope dedupe_key : String) (deliveries : List (Delivery E W A))
      (marks : Marks) (w : W)
      → All (Counts measure scope dedupe_key) deliveries
      → measure (receive_all deliveries (marks, w)).1
        ≡ measure w
          + bit (
              answered scope dedupe_key deliveries (marks, w)
              && not (is_marked scope dedupe_key marks))
  unfolding receive_all answered run_once_in after_mark
  receive_all_once measure scope dedupe_key [] marks w counts = ground arith
  receive_all_once measure scope dedupe_key (d ∷ deliveries) marks w counts =
      elim (Bool-cases (is_marked d.scope d.dedupe_key marks)) [
        | inl m ↦
            let rest = receive_all_once measure scope dedupe_key deliveries marks w counts.1 in
            ground (arith, m, rest, eq_iff_at d.scope scope, eq_iff_at d.dedupe_key dedupe_key)
        | inr m ↦
            let w1 = (d.action w).1 in
            elim (Result-cases (d.action w).0) [
              | inl (e, a) ↦
                  let rest =
                    receive_all_once measure scope dedupe_key deliveries marks w counts.1 in
                  ground (arith, m, a, rest)
              | inr (x, a) ↦
                  let rest =
                    receive_all_once measure scope dedupe_key deliveries
                      ((d.scope, d.dedupe_key) ∷ marks) w1 counts.1 in
                  let effect = counts.0 w x a in
                  ground (
                    arith,
                    m,
                    a,
                    rest,
                    effect,
                    eq_iff_at d.scope scope,
                    eq_iff_at d.dedupe_key dedupe_key,
                  )
            ]
      ]
