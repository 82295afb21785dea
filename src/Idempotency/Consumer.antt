-- ===== src/Idempotency/Consumer.antt =====
-- linkmint-backend/idempotency-python/src/linkmint_idempotency/consumer.py: an event's action runs
-- once, by a marker in Redis or by a row of the handler's own transaction. An action is any method
-- that may raise. The check of the table's name is not modelled.
use Prim.Native.String.{◌++◌ as append}
use paylink.Prelude.{
  ℕ, String, Bool, true, false, ◌&&◌, if◌then◌else◌, Option, none, some, is_some, List, ◌∷◌, any,
  string_eq, ◌==◌, Result, ok, err, Exec,
}
use paylink.Idempotency.Redis.{RedisLike}

-- `RedisDedupe._key`
abbrev pub consumer_key : (service scope dedupe_key : String) → String
consumer_key service scope dedupe_key =
    append "idemc:" (append service (append ":" (append scope (append ":" dedupe_key))))

abbrev pub seen_before :
    (redis : RedisLike String) (service : String) (now : ℕ) (scope dedupe_key : String)
    → redis.Keys
    → Bool
seen_before redis service now scope dedupe_key keys =
    is_some (redis.get now (consumer_key service scope dedupe_key) keys)

module _ {E W A : Type 0} (redis : RedisLike String) where
  -- A raise of the action drops the marker.
  unfoldable pub guarded :
      (name : String) → redis.Keys → Result E A × W → Result E (Option A) × redis.Keys × W
  guarded name keys (ok a, w) = (ok (some a), keys, w)
  guarded name keys (err e, w) = (err e, redis.delete name keys, w)

  unfoldable pub if_reserved :
      (name : String) (action : Exec E W A) (w : W)
      → Bool × redis.Keys
      → Result E (Option A) × redis.Keys × W
  unfolding guarded
  if_reserved name action w (true, keys) = guarded name keys (action w)
  if_reserved name action w (false, keys) = (ok none, keys, w)

  -- `RedisDedupe.run_once`
  unfoldable pub run_once :
      (service : String) (ttl now : ℕ) (scope dedupe_key : String) (action : Exec E W A)
      → redis.Keys × W
      → Result E (Option A) × redis.Keys × W
  unfolding if_reserved
  run_once service ttl now scope dedupe_key action (keys, w) =
      let name = consumer_key service scope dedupe_key in
      if_reserved name action w (redis.set_nx now ttl name "1" keys)

abbrev pub Marks : Type 0
Marks = List (String × String)

abbrev pub is_marked : (scope dedupe_key : String) → Marks → Bool
is_marked scope dedupe_key marks = any (λ (s, k). s == scope && k == dedupe_key) marks

module _ {E W A : Type 0} where
  unfoldable pub after_mark : Marks → Result E A × W → Result E (Bool × Option A) × Marks × W
  after_mark marks (ok a, w) = (ok (true, some a), marks, w)
  after_mark marks (err e, w) = (err e, marks, w)

  -- `DbDedupe.run_once`, on the caller's transaction
  unfoldable pub run_once_in :
      (scope dedupe_key : String) (action : Exec E W A)
      → Marks × W
      → Result E (Bool × Option A) × Marks × W
  unfolding after_mark
  run_once_in scope dedupe_key action (marks, w) =
      if is_marked scope dedupe_key marks
      then (ok (false, none), marks, w)
      else after_mark ((scope, dedupe_key) ∷ marks) (action w)

  -- The caller commits what was answered and rolls back what was raised.
  abbrev pub settled : Marks × W → Result E (Bool × Option A) × Marks × W → Marks × W
  settled s (ok _, marks, w) = (marks, w)
  settled s (err _, marks, w) = s
