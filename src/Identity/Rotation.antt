-- ===== src/Identity/Rotation.antt =====
-- Refresh tokens of linkmint-backend/identity-service serve once.
use paylink.Prelude.{
  ℕ, String, Bool, false, ◌||◌, Option, some, is_some, List, [], ◌∷◌, ◌++◌, map, length, any, leb,
  string_eq, ◌==◌, eq_iff_at, ok, err, request, ◌≡◌, inl, inr, refl, sym, ap, ◌∙◌, subst, arith,
  Bool-cases, Option-cases,
}
use paylink.Identity.Model.{
  invalid_token, UserRow, SessionRow, State, insert_session, session_by, has_token, revoke_row,
  get_user, get_session_by_refresh_hash,
}
use paylink.Identity.Sessions.{AuthTokens, Secrets, session_row, live_user, issue, renew, rotate}
use paylink.Identity.Lost.{IsLost, IsLost-append}
use paylink.Identity.Revoked.{Call, serve_all, AreRevoked, rotate-refused}

-- The session that is revoked by its identifier is the one under the token.
revoke-IsLost :
    (h : String) (now : ℕ) (session : SessionRow) (rows : List SessionRow)
    → session_by (has_token h) rows ≡ some session
    → IsLost h session.user_id
        (map (revoke_row (λ row. row.session_id == session.session_id) now) rows)
unfolding session_by
revoke-IsLost h now session [] found = absurd (ground (arith, found))
revoke-IsLost h now session (r ∷ rows) found = elim (Bool-cases (has_token h r)) [
  | inl e ↦
      let same : r ≡ session = ground (arith, e, found) in
      let own : r.session_id ≡ session.session_id = ap (λ x. x.session_id) same in
      record {
        row = record r { revoked_at = some now };
        found = ground (arith, e, own, eq_iff_at r.session_id session.session_id);
        of_user = ap (λ x. x.user_id) same;
        revoked = refl;
      }
  | inr e ↦
      let rest = revoke-IsLost h now session rows (ground (arith, e, found)) in
      let p : SessionRow → Bool = λ row. row.session_id == session.session_id in
      elim (Bool-cases (p r)) [
        | inl f ↦ record {
          row = rest.row;
          found = ground (arith, e, f, rest.found);
          of_user = rest.of_user;
          revoked = rest.revoked;
        }
        | inr f ↦ record {
          row = rest.row;
          found = ground (arith, e, f, rest.found);
          of_user = rest.of_user;
          revoked = rest.revoked;
        }
      ]
]

module _ (secrets : Secrets) where
  issue-IsLost :
      (h u : String) (now : ℕ) (user : UserRow) (user_agent ip : Option String) (mfa : Bool)
      (tokens : AuthTokens) (s : State)
      → IsLost h u s.working.sessions
      → (issue secrets now user user_agent ip mfa s).0 ≡ ok tokens
      → IsLost h u (issue secrets now user user_agent ip mfa s).1.stored.sessions
  unfolding issue insert_session
  issue-IsLost h u now user user_agent ip mfa tokens s lost done =
      let drawn = secrets.new_session (length s.working.sessions) in
      let row = session_row secrets now user user_agent ip drawn.0 drawn.1 in
      let taken =
        any (λ r. r.session_id == row.session_id || r.refresh_token == row.refresh_token)
          s.working.sessions in
      elim (Bool-cases taken) [
        | inl e ↦ absurd (ground (arith, e, done))
        | inr e ↦
            let ran : (issue secrets now user user_agent ip mfa s).1.stored.sessions
                ≡ s.working.sessions ++ row ∷ [] =
              ground (arith, e) in
            subst (IsLost h u) (sym ran) (IsLost-append h u s.working.sessions (row ∷ []) lost)
      ]

  renew-IsLost :
      (h : String) (now : ℕ) (user_agent ip : Option String) (session : SessionRow)
      (tokens : AuthTokens) (s : State)
      → session_by (has_token h) s.working.sessions ≡ some session
      → (renew secrets now user_agent ip session s).0 ≡ ok tokens
      → IsLost h session.user_id (renew secrets now user_agent ip session s).1.stored.sessions
  unfolding renew
  renew-IsLost h now user_agent ip session tokens s found done =
      let run = renew secrets now user_agent ip session s in
      elim (Bool-cases (leb session.expires_at now)) [
        | inl a ↦ absurd (ground (arith, a, done))
        | inr a ↦ elim (Option-cases (live_user (get_user session.user_id s.working))) [
          | inl b ↦ absurd (ground (arith, a, b, done))
          | inr (user, b) ↦
              let p : SessionRow → Bool = λ row. row.session_id == session.session_id in
              let t : State = record s {
                working = record s.working { sessions = map (revoke_row p now) s.working.sessions };
              } in
              let ran : run ≡ issue secrets now user user_agent ip false t = ground (arith, a, b) in
              subst (IsLost h session.user_id) (sym (ap (λ r. r.1.stored.sessions) ran)) (
                issue-IsLost h session.user_id now user user_agent ip false tokens t
                  (revoke-IsLost h now session s.working.sessions found)
                  (sym (ap (λ r. r.0) ran) ∙ done))
        ]
      ]

  rotate-IsLost :
      (now : ℕ) (refresh_token : String) (user_agent ip : Option String) (session : SessionRow)
      (tokens : AuthTokens) (s : State)
      → get_session_by_refresh_hash (secrets.hash_refresh_token refresh_token) s.stored
        ≡ some session
      → (request (rotate secrets now refresh_token user_agent ip) s).0 ≡ ok tokens
      → IsLost
          (secrets.hash_refresh_token refresh_token)
          session.user_id
          (request (rotate secrets now refresh_token user_agent ip) s).1.stored.sessions
  unfolding rotate
  rotate-IsLost now refresh_token user_agent ip session tokens s found done =
      let h = secrets.hash_refresh_token refresh_token in
      let s0 : State = record s { working = s.stored } in
      let run = rotate secrets now refresh_token user_agent ip s0 in
      elim (Bool-cases (is_some session.revoked_at)) [
        | inl a ↦ absurd (ground (arith, found, a, done))
        | inr a ↦
            let ran : run ≡ renew secrets now user_agent ip session s0 = ground (arith, found, a) in
            subst (IsLost h session.user_id) (sym (ap (λ r. r.1.stored.sessions) ran)) (
              renew-IsLost h now user_agent ip session tokens s0 found
                (sym (ap (λ r. r.0) ran) ∙ done))
      ]

  -- A refresh token that was exchanged once is refused under any later calls, and who presents it
  -- again has every session of its user revoked.
  pub rotate_once :
      (now : ℕ) (refresh_token : String) (user_agent ip : Option String) (session : SessionRow)
      (tokens : AuthTokens) (s : State) (calls : List Call) (now' : ℕ)
      (user_agent' ip' : Option String)
      → get_session_by_refresh_hash (secrets.hash_refresh_token refresh_token) s.stored
        ≡ some session
      → (request (rotate secrets now refresh_token user_agent ip) s).0 ≡ ok tokens
      → let later =
          serve_all secrets calls (request (rotate secrets now refresh_token user_agent ip) s).1 in
        let again = request (rotate secrets now' refresh_token user_agent' ip') later in
        (again.0 ≡ err invalid_token) × AreRevoked session.user_id again.1.stored.sessions
  rotate_once now refresh_token user_agent ip session tokens s calls now' user_agent' ip' found
        done =
      rotate-refused secrets calls (request (rotate secrets now refresh_token user_agent ip) s).1
        session.user_id now' refresh_token user_agent' ip'
        (rotate-IsLost now refresh_token user_agent ip session tokens s found done)
