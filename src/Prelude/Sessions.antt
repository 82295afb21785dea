-- ===== src/Prelude/Sessions.antt =====
-- A database session as the services use it: `working` is what the session's queries see, `stored`
-- what the database has committed, `published` what the publisher was given, in order. A request
-- runs on a new session over the stored data, and what it has not committed at its end is dropped.
use mathlib.Core.List.{List, [], ◌∷◌, ◌++◌}
use paylink.Prelude.Actions.{⊤, Exec, modify, gets}

pub record Session {ℓ κ} (D : Type ℓ) (N : Type κ) : Type (ℓ ⊔ κ) where
  pub stored : D
  pub working : D
  pub published : List N

module _ {ℓ κ μ} {E : Type μ} {D : Type ℓ} {N : Type κ} where
  -- `await session.commit()`
  abbrev pub commit : Exec E (Session D N) ⊤
  commit = modify (λ s. record s { stored = s.working })

  -- `await publisher.publish(event)`
  abbrev pub publish : N → Exec E (Session D N) ⊤
  publish n = modify (λ s. record s { published = s.published ++ n ∷ [] })

  -- a flushed write
  abbrev pub write : (D → D) → Exec E (Session D N) ⊤
  write f = modify (λ s. record s { working = f s.working })

module _ {ℓ κ μ ν} {E : Type μ} {D : Type ℓ} {N : Type κ} {A : Type ν} where
  -- a query
  abbrev pub query : (D → A) → Exec E (Session D N) A
  query f = gets (λ s. f s.working)

  -- `async with sessionmaker() as session: …`
  abbrev pub request : Exec E (Session D N) A → Exec E (Session D N) A
  request m s =
      let (r, t) = m (record s { working = s.stored }) in (r, record t { working = t.stored })
