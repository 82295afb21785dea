-- ===== src/Idempotency/Redis.antt =====
-- The commands of Redis that linkmint-backend/idempotency-python relies on, `RedisLike` of its
-- store.py, with their documented effect on what a later GET answers. Times are seconds; a key that
-- was set at `now` for `ttl` seconds is there before `now + ttl`.
use paylink.Prelude.{
  ℕ, ◌+◌, String, Bool, true, false, if◌then◌else◌, Option, none, some, string_eq, ◌==◌, ltb, ◌≡◌,
}

module _ (V : Type 0) where
  pub record RedisLike : Type 1 where
    pub Keys : Type 0
    -- SET name value NX EX ttl
    pub set_nx : (now ttl : ℕ) (name : String) (value : V) → Keys → Bool × Keys
    -- SET name value EX ttl
    pub set : (now ttl : ℕ) (name : String) (value : V) → Keys → Keys
    pub get : (now : ℕ) (name : String) → Keys → Option V
    pub delete : (name : String) → Keys → Keys
    pub set_nx-taken :
        (now ttl : ℕ) (name : String) (value old : V) (keys : Keys)
        → get now name keys ≡ some old
        → set_nx now ttl name value keys ≡ (false, keys)
    pub set_nx-free :
        (now ttl : ℕ) (name : String) (value : V) (keys : Keys)
        → get now name keys ≡ none
        → set_nx now ttl name value keys ≡ (true, set now ttl name value keys)
    pub get-set :
        (later now ttl : ℕ) (other name : String) (value : V) (keys : Keys)
        → get later other (set now ttl name value keys) ≡ (
            if name == other
            then (if ltb later (now + ttl) then some value else none)
            else get later other keys)
    pub get-delete :
        (later : ℕ) (other name : String) (keys : Keys)
        → get later other (delete name keys)
          ≡ (if name == other then none else get later other keys)
