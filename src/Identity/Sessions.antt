-- ===== src/Identity/Sessions.antt =====
-- linkmint-backend/identity-service/app/domain/sessions_service.py. Parameters are the hash of
-- tokens, the issuer of access tokens and what is drawn at random: an identifier and a token for a
-- session, by the number of sessions there are. The list of sessions is in the table's order.
use paylink.Prelude.{
  ℕ, ◌+◌, String, Bool, true, false, ◌&&◌, not, if◌then◌else◌, Option, none, some, is_some, List,
  [], ◌∷◌, map, length, select, leb, ltb, string_eq, ◌==◌, ⊤, pure, raise, raise_if, or_raise,
  ◌>>=◌, ◌>>◌, query, commit, publish,
}
use paylink.Identity.Model.{
  invalid_token, token_expired, session_not_found, UserStatus, active, suspended, deleted, UserRow,
  OrganizationRow, SessionRow, auth_failed, IdentityDb, Method, get_user, get_org,
  list_memberships_for_user, insert_session, get_session_by_refresh_hash, get_session,
  list_sessions_for_user, set_revoked, is_active_of,
}

pub record OrgRole : Type 0 where
  pub org_id : String
  pub role : String
  pub type : Option String

-- what an access token says
pub record AccessClaims : Type 0 where
  pub user_id : String
  pub roles : List OrgRole
  pub user_roles : List String
  pub kyc_tier : ℕ
  pub sid : String
  pub mfa : Bool

pub record AuthTokens : Type 0 where
  pub access_token : String
  pub refresh_token : String
  pub expires_in : ℕ

-- what the service asks outside its database
pub record Secrets : Type 0 where
  pub hash_refresh_token : String → String
  pub issue_access : AccessClaims → String × ℕ
  -- the identifier of a new session, and its token
  pub new_session : ℕ → String × String
  pub refresh_token_ttl_seconds : ℕ

abbrev pub is_active : UserStatus → Bool
is_active active = true
is_active suspended = false
is_active deleted = false

abbrev pub org_type : Option OrganizationRow → Option String
org_type none = none
org_type (some org) = some org.type

-- `_roles`
abbrev pub roles_of : String → IdentityDb → List OrgRole
roles_of user_id d =
    map (λ m. record { org_id = m.org_id; role = m.role; type = org_type (get_org m.org_id d) })
      (list_memberships_for_user user_id d)

abbrev pub session_row :
    (secrets : Secrets) (now : ℕ) (user : UserRow) (user_agent ip : Option String)
    (sid refresh : String)
    → SessionRow
session_row secrets now user user_agent ip sid refresh = record {
  session_id = sid;
  user_id = user.user_id;
  refresh_token = secrets.hash_refresh_token refresh;
  user_agent = user_agent;
  ip = ip;
  expires_at = now + secrets.refresh_token_ttl_seconds;
  revoked_at = none;
}

-- `_revoke_family`
abbrev pub revoke_family : (now : ℕ) (user_id : String) → Method ⊤
revoke_family now user_id = set_revoked (is_active_of user_id) now

abbrev pub live_user : Option UserRow → Option UserRow
live_user none = none
live_user (some user) = if is_active user.status then some user else none

-- the session that a logout revokes
abbrev pub revocable : (user_id : String) → Option SessionRow → Option SessionRow
revocable user_id none = none
revocable user_id (some session) =
    if session.user_id == user_id && not (is_some session.revoked_at) then some session else none

abbrev pub revoke_one : (now : ℕ) → Option SessionRow → Method ⊤
revoke_one now none = pure tt
revoke_one now (some session) = do
  set_revoked (λ row. row.session_id == session.session_id) now
  commit

module _ (secrets : Secrets) where
  unfoldable pub issue :
      (now : ℕ) (user : UserRow) (user_agent ip : Option String) (mfa : Bool) → Method AuthTokens
  unfolding insert_session
  issue now user user_agent ip mfa = do
    (sid, refresh) ← query (λ d. secrets.new_session (length d.sessions))
    insert_session (session_row secrets now user user_agent ip sid refresh)
    roles ← query (roles_of user.user_id)
    let access = secrets.issue_access (record {
      user_id = user.user_id;
      roles = roles;
      user_roles = "payer" ∷ [];
      kyc_tier = user.kyc_tier;
      sid = sid;
      mfa = mfa;
    })
    commit
    pure (record { access_token = access.0; refresh_token = refresh; expires_in = access.1 })

  -- a token that was used or revoked before: the whole family of sessions is revoked
  abbrev pub reused : (now : ℕ) → SessionRow → Method AuthTokens
  reused now session = do
    revoke_family now session.user_id
    commit
    publish (auth_failed session.user_id "refresh_token_reuse")
    raise invalid_token

  -- a token whose session stands
  unfoldable pub renew : (now : ℕ) (user_agent ip : Option String) → SessionRow → Method AuthTokens
  renew now user_agent ip session = do
    raise_if (leb session.expires_at now) token_expired
    found ← query (get_user session.user_id)
    user ← or_raise (live_user found) invalid_token
    set_revoked (λ row. row.session_id == session.session_id) now
    issue now user user_agent ip false

  abbrev pub presented : (now : ℕ) (user_agent ip : Option String) → SessionRow → Method AuthTokens
  presented now user_agent ip session =
      if is_some session.revoked_at then reused now session else renew now user_agent ip session

  unfoldable pub rotate :
      (now : ℕ) (refresh_token : String) (user_agent ip : Option String) → Method AuthTokens
  rotate now refresh_token user_agent ip = do
    found ← query (get_session_by_refresh_hash (secrets.hash_refresh_token refresh_token))
    session ← or_raise found invalid_token
    presented now user_agent ip session

  unfoldable pub logout : (now : ℕ) (user_id refresh_token : String) → Method ⊤
  logout now user_id refresh_token = do
    found ← query (get_session_by_refresh_hash (secrets.hash_refresh_token refresh_token))
    revoke_one now (revocable user_id found)

abbrev pub owned : (user_id : String) → Option SessionRow → Option SessionRow
owned user_id none = none
owned user_id (some session) = if session.user_id == user_id then some session else none

unfoldable pub revoke : (now : ℕ) (user_id session_id : String) → Method ⊤
revoke now user_id session_id = do
  found ← query (get_session session_id)
  session ← or_raise (owned user_id found) session_not_found
  revoke_one now (revocable user_id (some session))

-- with the commit of its caller
unfoldable pub revoke_all : (now : ℕ) (user_id : String) → Method ⊤
revoke_all now user_id = do revoke_family now user_id; commit

abbrev pub list_active : (now : ℕ) (user_id : String) → Method (List SessionRow)
list_active now user_id = query (λ d.
    select (λ row. not (is_some row.revoked_at) && ltb now row.expires_at)
      (list_sessions_for_user user_id d))
