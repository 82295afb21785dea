-- ===== src/Idempotency/Tests.antt =====
-- The library linkmint-backend/idempotency-python over a Redis that is a table of entries and the
-- times at which they end.
use paylink.Prelude.{
  ℕ, ◌+◌, suc, String, Bool, true, false, ◌&&◌, not, if◌then◌else◌, Option, none, some, List, [],
  ◌∷◌, Table, lookup, insert, erase, lookup-insert, lookup-erase, string_eq, ◌==◌, ltb, ok, err,
  Exec, ◌≡◌, inl, inr, refl, ap, arith, Bool-cases,
}
use paylink.Idempotency.Redis.{RedisLike}
use paylink.Idempotency.Store.{IdempotencyRecord, in_flight, after_set, begin, complete}
use paylink.Idempotency.Reservations.{
  Op, beginning, completing, releasing, perform_all, perform_all-reserved, perform_all-replayed,
}
use paylink.Idempotency.Consumer.{is_marked, run_once_in, after_mark}
use paylink.Idempotency.Once.{Delivery, receive_all, answered, Counts, bit, receive_all_once}

module _ (V : Type 0) where
  abbrev Kept : Type 0
  Kept = Table String (ℕ × V)

  abbrev alive : ℕ → Option (ℕ × V) → Option V
  alive now none = none
  alive now (some (expiry, value)) = if ltb now expiry then some value else none

  abbrev get_kept : ℕ → String → Kept → Option V
  get_kept now name keys = alive now (lookup name keys)

  abbrev set_kept : (now ttl : ℕ) → String → V → Kept → Kept
  set_kept now ttl name value keys = insert name (now + ttl, value) keys

  abbrev if_free : Option V → (set kept : Kept) → Bool × Kept
  if_free none set kept = (true, set)
  if_free (some old) set kept = (false, kept)

  abbrev set_nx_kept : (now ttl : ℕ) → String → V → Kept → Bool × Kept
  set_nx_kept now ttl name value keys =
      if_free (get_kept now name keys) (set_kept now ttl name value keys) keys

  alive-insert :
      (later expiry : ℕ) (other name : String) (value : V) (keys : Kept)
      → alive later (lookup other (insert name (expiry, value) keys)) ≡ (
          if name == other
          then (if ltb later expiry then some value else none)
          else alive later (lookup other keys))
  alive-insert later expiry other name value keys =
      rw (lookup-insert name other (expiry, value) keys)
        (elim (Bool-cases (name == other)) [ inl e ↦ rw e refl | inr e ↦ rw e refl ])

  alive-erase :
      (later : ℕ) (other name : String) (keys : Kept)
      → alive later (lookup other (erase name keys))
        ≡ (if name == other then none else alive later (lookup other keys))
  alive-erase later other name keys =
      rw (lookup-erase name other keys)
        (elim (Bool-cases (name == other)) [ inl e ↦ rw e refl | inr e ↦ rw e refl ])

  abbrev table_redis : RedisLike V
  table_redis = record {
    Keys = Kept;
    set_nx = set_nx_kept;
    set = set_kept;
    get = get_kept;
    delete = λ name keys. erase name keys;
    set_nx-taken = λ now ttl name value old keys e.
        ap (λ o. if_free o (set_kept now ttl name value keys) keys) e;
    set_nx-free =
        λ now ttl name value keys e. ap (λ o. if_free o (set_kept now ttl name value keys) keys) e;
    get-set =
        λ later now ttl other name value keys. alive-insert later (now + ttl) other name value keys;
    get-delete = λ later other name keys. alive-erase later other name keys;
  }

abbrev entries : RedisLike IdempotencyRecord
entries = table_redis IdempotencyRecord

-- Another key is used, and the same one again.
abbrev others : List Op
others =
    beginning 11 11 "create" "k2" "h2"
    ∷ completing 12 "create" "k2" "h2" 201 []
    ∷ beginning 13 14 "create" "k1" "h1"
    ∷ releasing "cancel" "k1"
    ∷ []

abbrev keys_begun : entries.Keys
keys_begun = (begin entries "paylink" 100 10 10 "create" "k1" "h1" []).1

perform_all-reserved_example :
    begin entries "paylink" 100 20 20 "create" "k1" "h1"
      (perform_all entries "paylink" 100 others keys_begun)
    ≡ (err in_flight, perform_all entries "paylink" 100 others keys_begun)
unfolding begin after_set lookup insert
perform_all-reserved_example =
    perform_all-reserved entries "paylink" 100 10 10 "create" "k1" "h1" [] others 20 20 "h1"
      (omega arith) refl ((refl, refl), (refl, ((refl, refl), (refl, tt)))) refl refl

abbrev keys_done : entries.Keys
keys_done = (complete entries "paylink" 100 10 "create" "k1" "h1" 201 [] keys_begun).1

perform_all-replayed_example :
    begin entries "paylink" 100 20 20 "create" "k1" "h1"
      (perform_all entries "paylink" 100 others keys_done)
    ≡ (
      ok (some (record { http_status = 201; body = [] })),
      perform_all entries "paylink" 100 others keys_done,
    )
perform_all-replayed_example =
    perform_all-replayed entries "paylink" 100 10 "create" "k1" "h1" 201 [] keys_begun others 20 20
      "h1" ((refl, refl), (refl, ((refl, refl), (refl, tt)))) refl refl

-- An action that counts itself, and one that raises.
abbrev counting : Exec Bool ℕ ℕ
counting n = (ok n, suc n)

abbrev failing : Exec Bool ℕ ℕ
failing n = (err true, suc n)

abbrev counted_delivery : Exec Bool ℕ ℕ → Delivery Bool ℕ ℕ
counted_delivery action = record { scope = "merchant"; dedupe_key = "e1"; action = action }

-- An event that fails at first and is delivered three times takes effect once.
abbrev deliveries : List (Delivery Bool ℕ ℕ)
deliveries = counted_delivery failing ∷ counted_delivery counting ∷ counted_delivery counting ∷ []

taken_once : receive_all deliveries ([], 0) ≡ (("merchant", "e1") ∷ [], 1)
unfolding receive_all run_once_in after_mark
taken_once = refl

some_answered : answered "merchant" "e1" deliveries ([], 0) ≡ true
unfolding answered run_once_in after_mark
some_answered = refl

failing-Counts : Counts (λ n. n) "merchant" "e1" (counted_delivery failing)
failing-Counts w a e = cc

counting-Counts : Counts (λ n. n) "merchant" "e1" (counted_delivery counting)
counting-Counts w a e = omega arith

receive_all_once_example :
    (receive_all deliveries ([], 0)).1
    ≡ 0 + bit (answered "merchant" "e1" deliveries ([], 0) && not (is_marked "merchant" "e1" []))
receive_all_once_example =
    receive_all_once (λ n. n) "merchant" "e1" deliveries [] 0
      (failing-Counts, (counting-Counts, (counting-Counts, tt)))
