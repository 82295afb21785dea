-- ===== src/Idempotency/Store.antt =====
-- linkmint-backend/idempotency-python/src/linkmint_idempotency/store.py over any Redis. The JSON of
-- an entry is the entry itself, and fingerprints of bodies are arguments.
use Prim.Native.String.{◌++◌ as append}
use paylink.Prelude.{
  ℕ, String, Bool, true, false, if◌then◌else◌, Option, none, some, List, string_eq, ◌==◌, Result,
  ok, Exec, ⊤, pure, raise, modify,
}
use paylink.Idempotency.Redis.{RedisLike}

pub record CachedResponse : Type 0 where
  pub http_status : ℕ
  pub body : List (String × String)

-- `reason` of IdempotencyConflict
pub data IdempotencyConflict : Type 0 where
  body_mismatch in_flight : IdempotencyConflict

pub data IdempotencyRecord : Type 0 where
  pending : (fp : String) → IdempotencyRecord
  completed : (fp : String) (response : CachedResponse) → IdempotencyRecord

-- `_key`
abbrev pub key_of : (service route key : String) → String
key_of service route key =
    append "idem:" (append service (append ":" (append route (append ":" key))))

-- what a request under a key in use is answered
abbrev pub judged :
    (fp : String) → IdempotencyRecord → Exec IdempotencyConflict ⊤ (Option CachedResponse)
judged fp (pending old) = if old == fp then raise in_flight else raise body_mismatch
judged fp (completed old response) = if old == fp then pure (some response) else raise body_mismatch

module _ (redis : RedisLike IdempotencyRecord) (service : String) (ttl : ℕ) where
  abbrev pub Method : Type 0 → Type 0
  Method A = Exec IdempotencyConflict redis.Keys A

  -- what follows the reply to SET NX
  unfoldable pub after_set :
      (later : ℕ) (route key fp : String)
      → Bool × redis.Keys
      → Result IdempotencyConflict (Option CachedResponse) × redis.Keys
  after_set later route key fp (true, keys) = (ok none, keys)
  after_set later route key fp (false, keys) =
      elim (redis.get later (key_of service route key) keys) [
        | none ↦ (ok none, redis.set later ttl (key_of service route key) (pending fp) keys)
        | some entry ↦ ((judged fp entry tt).0, keys)
      ]

  unfoldable pub begin : (now later : ℕ) (route key fp : String) → Method (Option CachedResponse)
  unfolding after_set
  begin now later route key fp keys =
      after_set later route key fp
        (redis.set_nx now ttl (key_of service route key) (pending fp) keys)

  abbrev pub complete :
      (now : ℕ) (route key fp : String) (http_status : ℕ) (body : List (String × String)) → Method ⊤
  complete now route key fp http_status body = modify (
      redis.set now ttl (key_of service route key)
        (completed fp (record { http_status = http_status; body = body })))

  abbrev pub release : (route key : String) → Method ⊤
  release route key = modify (redis.delete (key_of service route key))
