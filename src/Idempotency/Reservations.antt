-- ===== src/Idempotency/Reservations.antt =====
-- What a key of linkmint-backend/idempotency-python keeps for its owner, whatever other requests do.
use paylink.Prelude.{
  ℕ, ◌+◌, ◌≤◌, String, true, false, if◌then◌else◌, none, some, List, [], ◌∷◌, All, string_eq, ◌==◌,
  eq_iff_at, ltb, ok, err, ◌≡◌, ◌≢◌, ◌⊎◌, inl, inr, sym, ap, ◌∙◌, subst, arith, Bool-cases,
  Option-cases,
}
use paylink.Idempotency.Redis.{RedisLike}
use paylink.Idempotency.Store.{
  body_mismatch, in_flight, IdempotencyRecord, pending, completed, key_of, judged, after_set, begin,
  complete, release,
}

-- a call of the store
pub data Op : Type 0 where
  beginning : (now later : ℕ) (route key fp : String) → Op
  completing :
      (now : ℕ) (route key fp : String) (http_status : ℕ) (body : List (String × String)) → Op
  releasing : (route key : String) → Op

module _ (redis : RedisLike IdempotencyRecord) (service : String) (ttl : ℕ) where
  unfoldable pub perform : Op → redis.Keys → redis.Keys
  perform (beginning now later route key fp) keys =
      (begin redis service ttl now later route key fp keys).1
  perform (completing now route key fp http_status body) keys =
      (complete redis service ttl now route key fp http_status body keys).1
  perform (releasing route key) keys = (release redis service ttl route key keys).1

  unfoldable pub perform_all : List Op → redis.Keys → redis.Keys
  perform_all [] keys = keys
  perform_all (op ∷ ops) keys = perform_all ops (perform op keys)

  -- A call before a time that neither completes nor releases a key.
  abbrev pub Spares : (name : String) (expiry : ℕ) → Op → Type 0
  Spares name expiry (beginning now later route key fp) =
      (ltb now expiry ≡ true) × (ltb later expiry ≡ true)
  Spares name expiry (completing now route key fp http_status body) =
      (key_of service route key == name) ≡ false
  Spares name expiry (releasing route key) = (key_of service route key == name) ≡ false

  -- A key has an entry before a time.
  abbrev pub Holds : (name : String) (entry : IdempotencyRecord) (expiry : ℕ) → redis.Keys → Type 0
  Holds name entry expiry keys = (t : ℕ) → ltb t expiry ≡ true → redis.get t name keys ≡ some entry

  begin-of_Holds :
      (now later : ℕ) (route key fp : String) (entry : IdempotencyRecord) (expiry : ℕ)
      (keys : redis.Keys)
      → Holds (key_of service route key) entry expiry keys
      → ltb now expiry ≡ true
      → ltb later expiry ≡ true
      → begin redis service ttl now later route key fp keys ≡ ((judged fp entry tt).0, keys)
  unfolding begin after_set
  begin-of_Holds now later route key fp entry expiry keys holds a b =
      let name = key_of service route key in
      let taken = redis.set_nx-taken now ttl name (pending fp) entry keys (holds now a) in
      ground (arith, taken, holds later b)

  -- What a request finds under its key: nothing, nothing any more, or an entry that decides.
  begin-cases :
      (now later : ℕ) (route key fp : String) (keys : redis.Keys)
      → let name = key_of service route key in
        let run = begin redis service ttl now later route key fp keys in
        (run ≡ (ok none, redis.set now ttl name (pending fp) keys))
        ⊎ (run ≡ (ok none, redis.set later ttl name (pending fp) keys))
        ⊎ ((entry : IdempotencyRecord) × (run ≡ ((judged fp entry tt).0, keys)))
  unfolding begin after_set
  begin-cases now later route key fp keys =
      let name = key_of service route key in
      elim (Option-cases (redis.get now name keys)) [
        | inl a ↦ inl (ground (arith, redis.set_nx-free now ttl name (pending fp) keys a))
        | inr (old, a) ↦
            let taken = redis.set_nx-taken now ttl name (pending fp) old keys a in
            elim (Option-cases (redis.get later name keys)) [
              | inl b ↦ inr (inl (ground (arith, taken, b)))
              | inr (found, b) ↦ inr (inr (found, (ground (arith, taken, b))))
            ]
      ]

  Holds-set :
      (name other : String) (entry value : IdempotencyRecord) (expiry now : ℕ) (keys : redis.Keys)
      → (other == name) ≡ false
      → Holds name entry expiry keys
      → Holds name entry expiry (redis.set now ttl other value keys)
  Holds-set name other entry value expiry now keys apart holds t e =
      ground (arith, redis.get-set t now ttl name other value keys, apart, holds t e)

  Holds-begin :
      (name : String) (entry : IdempotencyRecord) (expiry now later : ℕ) (route key fp : String)
      (keys : redis.Keys)
      → (key_of service route key == name) ≡ false
      → Holds name entry expiry keys
      → Holds name entry expiry (begin redis service ttl now later route key fp keys).1
  Holds-begin name entry expiry now later route key fp keys apart holds =
      let other = key_of service route key in
      let held : redis.Keys → Type 0 = Holds name entry expiry in
      elim (begin-cases now later route key fp keys) [
        | inl a ↦
            subst held (sym (ap (λ r. r.1) a))
              (Holds-set name other entry (pending fp) expiry now keys apart holds)
        | inr (inl a) ↦
            subst held (sym (ap (λ r. r.1) a))
              (Holds-set name other entry (pending fp) expiry later keys apart holds)
        | inr (inr (found, a)) ↦ subst held (sym (ap (λ r. r.1) a)) holds
      ]

  perform-Holds :
      (op : Op) (name : String) (entry : IdempotencyRecord) (expiry : ℕ) (keys : redis.Keys)
      → Spares name expiry op
      → Holds name entry expiry keys
      → Holds name entry expiry (perform op keys)
  unfolding perform
  perform-Holds (beginning now later route key fp) name entry expiry keys spares holds =
      elim (Bool-cases (key_of service route key == name)) [
        | inr e ↦ Holds-begin name entry expiry now later route key fp keys e holds
        | inl e ↦
            let same : name ≡ key_of service route key =
              sym ((eq_iff_at (key_of service route key) name).0 e) in
            let run =
              begin-of_Holds now later route key fp entry expiry keys
                (subst (λ n. Holds n entry expiry keys) same holds) spares.0 spares.1 in
            subst (Holds name entry expiry) (sym (ap (λ r. r.1) run)) holds
      ]
  perform-Holds (completing now route key fp http_status body) name entry expiry keys spares holds =
      Holds-set name (key_of service route key) entry _ expiry now keys spares holds
  perform-Holds (releasing route key) name entry expiry keys spares holds = λ t e.
      ground (arith, redis.get-delete t name (key_of service route key) keys, spares, holds t e)

  perform_all-Holds :
      (ops : List Op) (name : String) (entry : IdempotencyRecord) (expiry : ℕ) (keys : redis.Keys)
      → All (Spares name expiry) ops
      → Holds name entry expiry keys
      → Holds name entry expiry (perform_all ops keys)
  unfolding perform_all
  perform_all-Holds [] name entry expiry keys spare holds = holds
  perform_all-Holds (op ∷ ops) name entry expiry keys spare holds =
      perform_all-Holds ops name entry expiry (perform op keys) spare.1
        (perform-Holds op name entry expiry keys spare.0 holds)

  judged_answers : (fp : String) (entry : IdempotencyRecord) → (judged fp entry tt).0 ≢ ok none
  judged_answers fp (pending old) h = ground (arith, h)
  judged_answers fp (completed old response) h = ground (arith, h)

  -- A request that is to do the work has reserved its key.
  begin-Holds :
      (now later : ℕ) (route key fp : String) (keys : redis.Keys)
      → now ≤ later
      → (begin redis service ttl now later route key fp keys).0 ≡ ok none
      → Holds
          (key_of service route key)
          (pending fp)
          (now + ttl)
          (begin redis service ttl now later route key fp keys).1
  begin-Holds now later route key fp keys order owned =
      let name = key_of service route key in
      let held : redis.Keys → Type 0 = Holds name (pending fp) (now + ttl) in
      elim (begin-cases now later route key fp keys) [
        | inl a ↦ subst held (sym (ap (λ r. r.1) a)) (λ t e.
            ground
              (arith, redis.get-set t now ttl name name (pending fp) keys, eq_iff_at name name, e))
        | inr (inl a) ↦ subst held (sym (ap (λ r. r.1) a)) (λ t e. ground (
          arith,
          redis.get-set t later ttl name name (pending fp) keys,
          eq_iff_at name name,
          e,
          order,
        ))
        | inr (inr (found, a)) ↦ absurd (judged_answers fp found (sym (ap (λ r. r.0) a) ∙ owned))
      ]

  complete-Holds :
      (now : ℕ) (route key fp : String) (http_status : ℕ) (body : List (String × String))
      (keys : redis.Keys)
      → Holds
          (key_of service route key)
          (completed fp (record { http_status = http_status; body = body }))
          (now + ttl)
          (complete redis service ttl now route key fp http_status body keys).1
  complete-Holds now route key fp http_status body keys = λ t e.
      let name = key_of service route key in
      ground (
        arith,
        redis.get-set t now ttl name name
            (completed fp (record { http_status = http_status; body = body })) keys,
        eq_iff_at name name,
        e,
      )

  -- A request that reserves its key owns it for the time to live. While it has not completed or
  -- released it, whatever other calls there are, each request under this key is refused and changes
  -- nothing: as in flight for the same body, as a mismatch for another one.
  pub perform_all-reserved :
      (now later : ℕ) (route key fp : String) (keys : redis.Keys) (ops : List Op) (now' later' : ℕ)
      (fp' : String)
      → now ≤ later
      → (begin redis service ttl now later route key fp keys).0 ≡ ok none
      → All (Spares (key_of service route key) (now + ttl)) ops
      → ltb now' (now + ttl) ≡ true
      → ltb later' (now + ttl) ≡ true
      → let keys' = perform_all ops (begin redis service ttl now later route key fp keys).1 in
        begin redis service ttl now' later' route key fp' keys'
        ≡ (err (if fp == fp' then in_flight else body_mismatch), keys')
  perform_all-reserved now later route key fp keys ops now' later' fp' order owned spare a b =
      let name = key_of service route key in
      let first = (begin redis service ttl now later route key fp keys).1 in
      let holds =
        perform_all-Holds ops name (pending fp) (now + ttl) first spare
          (begin-Holds now later route key fp keys order owned) in
      let run =
        begin-of_Holds now' later' route key fp' (pending fp) (now + ttl) (perform_all ops first)
          holds a b in
      elim (Bool-cases (fp == fp')) [
        | inl e ↦ ground (arith, run, e)
        | inr e ↦ ground (arith, run, e)
      ]

  -- A response that a request completes with is replayed for the time to live: whatever other calls
  -- there are, each request under its key gets it for the same body and is refused for another one,
  -- and changes nothing.
  pub perform_all-replayed :
      (now : ℕ) (route key fp : String) (http_status : ℕ) (body : List (String × String))
      (keys : redis.Keys) (ops : List Op) (now' later' : ℕ) (fp' : String)
      → All (Spares (key_of service route key) (now + ttl)) ops
      → ltb now' (now + ttl) ≡ true
      → ltb later' (now + ttl) ≡ true
      → let keys' =
          perform_all ops (complete redis service ttl now route key fp http_status body keys).1 in
        begin redis service ttl now' later' route key fp' keys' ≡ (
          if fp == fp'
              then ok (some (record { http_status = http_status; body = body }))
              else err body_mismatch,
          keys',
        )
  perform_all-replayed now route key fp http_status body keys ops now' later' fp' spare a b =
      let name = key_of service route key in
      let entry = completed fp (record { http_status = http_status; body = body }) in
      let first = (complete redis service ttl now route key fp http_status body keys).1 in
      let holds =
        perform_all-Holds ops name entry (now + ttl) first spare
          (complete-Holds now route key fp http_status body keys) in
      let run =
        begin-of_Holds now' later' route key fp' entry (now + ttl) (perform_all ops first) holds a
          b in
      elim (Bool-cases (fp == fp')) [
        | inl e ↦ ground (arith, run, e)
        | inr e ↦ ground (arith, run, e)
      ]
