-- ===== src/Identity/Revoked.antt =====
-- Tokens of linkmint-backend/identity-service whose session was revoked, under any calls.
use paylink.Prelude.{
  ℕ, String, Bool, true, false, ◌||◌, not, Option, none, some, is_some, List, [], ◌∷◌, ◌++◌, map,
  length, any, All, leb, string_eq, ◌==◌, err, request, ◌≡◌, inl, inr, sym, subst, arith,
  Bool-cases, Option-cases,
}
use paylink.Identity.Model.{
  invalid_token, UserRow, SessionRow, IdentityDb, State, insert_session, revoke_row, is_active_of,
  get_user, get_session, get_session_by_refresh_hash,
}
use paylink.Identity.Sessions.{
  Secrets, session_row, live_user, issue, renew, reused, rotate, revocable, revoke_one, logout,
  owned, revoke, revoke_all,
}
use paylink.Identity.Lost.{IsLost, IsLost-append, IsLost-revoke_row}

pub data Call : Type 0 where
  issuing : (now : ℕ) (user : UserRow) (user_agent ip : Option String) (mfa : Bool) → Call
  rotating : (now : ℕ) (refresh_token : String) (user_agent ip : Option String) → Call
  logging_out : (now : ℕ) (user_id refresh_token : String) → Call
  revoking : (now : ℕ) (user_id session_id : String) → Call
  revoking_all : (now : ℕ) (user_id : String) → Call

module _ (secrets : Secrets) where
  unfoldable pub serve : Call → State → State
  serve (issuing now user user_agent ip mfa) s =
      (request (issue secrets now user user_agent ip mfa) s).1
  serve (rotating now refresh_token user_agent ip) s =
      (request (rotate secrets now refresh_token user_agent ip) s).1
  serve (logging_out now user_id refresh_token) s =
      (request (logout secrets now user_id refresh_token) s).1
  serve (revoking now user_id session_id) s = (request (revoke now user_id session_id) s).1
  serve (revoking_all now user_id) s = (request (revoke_all now user_id) s).1

  unfoldable pub serve_all : List Call → State → State
  serve_all [] s = s
  serve_all (call ∷ calls) s = serve_all calls (serve call s)

module _ (h u : String) where
  -- both what is committed and what the session sees
  abbrev AreLost : State → Type 0
  AreLost s = IsLost h u s.stored.sessions × IsLost h u s.working.sessions

  abbrev wrote : (SessionRow → Bool) → ℕ → State → State
  wrote p now s = record s {
    working = record s.working { sessions = map (revoke_row p now) s.working.sessions };
  }

  wrote-AreLost :
      (p : SessionRow → Bool) (now : ℕ) (s : State) → AreLost s → AreLost (wrote p now s)
  wrote-AreLost p now s lost = (lost.0, IsLost-revoke_row h u p now s.working.sessions lost.1)

  module _ (secrets : Secrets) where
    issue-AreLost :
        (now : ℕ) (user : UserRow) (user_agent ip : Option String) (mfa : Bool) (s : State)
        → AreLost s
        → AreLost (issue secrets now user user_agent ip mfa s).1
    unfolding issue insert_session
    issue-AreLost now user user_agent ip mfa s lost =
        let drawn = secrets.new_session (length s.working.sessions) in
        let row = session_row secrets now user user_agent ip drawn.0 drawn.1 in
        let taken =
          any (λ r. r.session_id == row.session_id || r.refresh_token == row.refresh_token)
            s.working.sessions in
        elim (Bool-cases taken) [
          | inl e ↦
              let ran : (issue secrets now user user_agent ip mfa s).1 ≡ s = ground (arith, e) in
              subst AreLost (sym ran) lost
          | inr e ↦
              let t : IdentityDb = record s.working { sessions = s.working.sessions ++ row ∷ [] } in
              let ran : (issue secrets now user user_agent ip mfa s).1
                  ≡ record s { working = t; stored = t } =
                ground (arith, e) in
              let more = IsLost-append h u s.working.sessions (row ∷ []) lost.1 in
              subst AreLost (sym ran) (more, more)
        ]

    renew-AreLost :
        (now : ℕ) (user_agent ip : Option String) (session : SessionRow) (s : State)
        → AreLost s
        → AreLost (renew secrets now user_agent ip session s).1
    unfolding renew
    renew-AreLost now user_agent ip session s lost =
        let run = renew secrets now user_agent ip session s in
        elim (Bool-cases (leb session.expires_at now)) [
          | inl a ↦ let ran : run.1 ≡ s = ground (arith, a) in subst AreLost (sym ran) lost
          | inr a ↦ elim (Option-cases (live_user (get_user session.user_id s.working))) [
            | inl b ↦ let ran : run.1 ≡ s = ground (arith, a, b) in subst AreLost (sym ran) lost
            | inr (user, b) ↦
                let p : SessionRow → Bool = λ row. row.session_id == session.session_id in
                let t = wrote p now s in
                let ran : run.1 ≡ (issue secrets now user user_agent ip false t).1 =
                  ground (arith, a, b) in
                subst AreLost (sym ran)
                  (issue-AreLost now user user_agent ip false t (wrote-AreLost p now s lost))
          ]
        ]

    rotate-AreLost :
        (now : ℕ) (refresh_token : String) (user_agent ip : Option String) (s : State)
        → AreLost s
        → AreLost (rotate secrets now refresh_token user_agent ip s).1
    unfolding rotate
    rotate-AreLost now refresh_token user_agent ip s lost =
        let run = rotate secrets now refresh_token user_agent ip s in
        let found =
          get_session_by_refresh_hash (secrets.hash_refresh_token refresh_token) s.working in
        elim (Option-cases found) [
          | inl a ↦ let ran : run.1 ≡ s = ground (arith, a) in subst AreLost (sym ran) lost
          | inr (session, a) ↦ elim (Bool-cases (is_some session.revoked_at)) [
            | inr b ↦
                let ran : run.1 ≡ (renew secrets now user_agent ip session s).1 =
                  ground (arith, a, b) in
                subst AreLost (sym ran) (renew-AreLost now user_agent ip session s lost)
            | inl b ↦
                let more = wrote-AreLost (is_active_of session.user_id) now s lost in
                let ran : run.1 ≡ (reused secrets now session s).1 = ground (arith, a, b) in
                subst AreLost (sym ran) (more.1, more.1)
          ]
        ]

    revoke_one-AreLost :
        (now : ℕ) (found : Option SessionRow) (s : State)
        → AreLost s
        → AreLost (revoke_one now found s).1
    revoke_one-AreLost now none s lost = lost
    revoke_one-AreLost now (some session) s lost =
        let more = wrote-AreLost (λ row. row.session_id == session.session_id) now s lost in
        (more.1, more.1)

    revoke-AreLost :
        (now : ℕ) (user_id session_id : String) (s : State)
        → AreLost s
        → AreLost (revoke now user_id session_id s).1
    unfolding revoke
    revoke-AreLost now user_id session_id s lost =
        elim (Option-cases (owned user_id (get_session session_id s.working))) [
          | inl a ↦
              let ran : (revoke now user_id session_id s).1 ≡ s = ground (arith, a) in
              subst AreLost (sym ran) lost
          | inr (session, a) ↦
              let ran : (revoke now user_id session_id s).1
                  ≡ (revoke_one now (revocable user_id (some session)) s).1 =
                ground (arith, a) in
              subst AreLost (sym ran)
                (revoke_one-AreLost now (revocable user_id (some session)) s lost)
        ]

    serve-IsLost :
        (call : Call) (s : State)
        → IsLost h u s.stored.sessions
        → IsLost h u (serve secrets call s).stored.sessions
    unfolding serve logout revoke_all
    serve-IsLost (issuing now user user_agent ip mfa) s lost =
        (issue-AreLost now user user_agent ip mfa (record s { working = s.stored }) (lost, lost)).0
    serve-IsLost (rotating now refresh_token user_agent ip) s lost =
        (rotate-AreLost now refresh_token user_agent ip (record s { working = s.stored })
          (lost, lost)).0
    serve-IsLost (logging_out now user_id refresh_token) s lost =
        (revoke_one-AreLost now
          (revocable user_id
            (get_session_by_refresh_hash (secrets.hash_refresh_token refresh_token) s.stored))
          (record s { working = s.stored }) (lost, lost)).0
    serve-IsLost (revoking now user_id session_id) s lost =
        (revoke-AreLost now user_id session_id (record s { working = s.stored }) (lost, lost)).0
    serve-IsLost (revoking_all now user_id) s lost =
        IsLost-revoke_row h u (is_active_of user_id) now s.stored.sessions lost

    serve_all-IsLost :
        (calls : List Call) (s : State)
        → IsLost h u s.stored.sessions
        → IsLost h u (serve_all secrets calls s).stored.sessions
    unfolding serve_all
    serve_all-IsLost [] s lost = lost
    serve_all-IsLost (call ∷ calls) s lost =
        serve_all-IsLost calls (serve secrets call s) (serve-IsLost call s lost)

-- every session of a user is revoked
abbrev pub AreRevoked : (user_id : String) → List SessionRow → Type 0
AreRevoked user_id rows =
    All (λ r. (not (r.user_id == user_id) || is_some r.revoked_at) ≡ true) rows

family-AreRevoked :
    (user_id : String) (now : ℕ) (rows : List SessionRow)
    → AreRevoked user_id (map (revoke_row (is_active_of user_id) now) rows)
family-AreRevoked user_id now [] = tt
family-AreRevoked user_id now (r ∷ rows) = (
  elim (Bool-cases (r.user_id == user_id)) [
    | inr e ↦ ground (arith, e)
    | inl e ↦ elim (Bool-cases (is_some r.revoked_at)) [
      | inl f ↦ ground (arith, e, f)
      | inr f ↦ ground (arith, e, f)
    ]
  ],
  family-AreRevoked user_id now rows,
)

-- A token whose session is revoked is refused whatever calls come first, and who presents it has
-- every session of its user revoked.
pub rotate-refused :
    (secrets : Secrets) (calls : List Call) (s : State) (user_id : String) (now : ℕ)
    (refresh_token : String) (user_agent ip : Option String)
    → IsLost (secrets.hash_refresh_token refresh_token) user_id s.stored.sessions
    → let run =
        request (rotate secrets now refresh_token user_agent ip) (serve_all secrets calls s) in
      (run.0 ≡ err invalid_token) × AreRevoked user_id run.1.stored.sessions
unfolding rotate
rotate-refused secrets calls s user_id now refresh_token user_agent ip lost =
    let h = secrets.hash_refresh_token refresh_token in
    let after = serve_all secrets calls s in
    let still = serve_all-IsLost h user_id secrets calls s lost in
    let found : get_session_by_refresh_hash h after.stored ≡ some still.row = still.found in
    let gone = still.revoked in
    let run = request (rotate secrets now refresh_token user_agent ip) after in
    let ran : run.1.stored.sessions
        ≡ map (revoke_row (is_active_of still.row.user_id) now) after.stored.sessions =
      ground (arith, found, gone) in
    let answered : run.0 ≡ err invalid_token = ground (arith, found, gone) in
    (
      answered,
      subst (AreRevoked user_id) (sym ran) (
          subst
            (λ v.
              AreRevoked v
                (map (revoke_row (is_active_of still.row.user_id) now) after.stored.sessions))
            still.of_user (family-AreRevoked still.row.user_id now after.stored.sessions)),
    )
