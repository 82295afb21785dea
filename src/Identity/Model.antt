-- ===== src/Identity/Model.antt =====
-- The rows of linkmint-backend/identity-service/app/db/models.py that sessions read and write, with
-- their queries in app/db/repositories.py. The order of two memberships of one user is the table's.
use paylink.Prelude.{
  ℕ, String, Bool, ◌&&◌, ◌||◌, not, if◌then◌else◌, Option, none, some, is_some, List, [], ◌∷◌, ◌++◌,
  map, any, select, Table, lookup, string_eq, ◌==◌, Session, Exec, ⊤, raise_if, ◌>>=◌, ◌>>◌, query,
  write,
}

pub data IdentityError : Type 0 where
  invalid_token token_expired session_not_found integrity_error : IdentityError
  invalid_payload org_not_found forbidden : IdentityError
  member_not_found member_exists cannot_remove_last_owner : IdentityError

pub data UserStatus : Type 0 where
  active suspended deleted : UserStatus

pub record UserRow : Type 0 where
  pub user_id : String
  pub email : Option String
  pub kyc_tier : ℕ
  pub status : UserStatus

pub record OrganizationRow : Type 0 where
  pub name : String
  pub type : String
  pub created_by : String

pub record MembershipRow : Type 0 where
  pub org_id : String
  pub user_id : String
  pub role : String

pub record SessionRow : Type 0 where
  pub session_id : String
  pub user_id : String
  -- a hash of the token
  pub refresh_token : String
  pub user_agent : Option String
  pub ip : Option String
  pub expires_at : ℕ
  pub revoked_at : Option ℕ

-- the names of events, with their payloads
pub data IdentityEvent : Type 0 where
  auth_failed : (user_id reason : String) → IdentityEvent
  org_created : (org_id detail : String) → IdentityEvent
  member_added : (org_id user_id role : String) → IdentityEvent
  member_removed : (org_id user_id : String) → IdentityEvent

pub record IdentityDb : Type 0 where
  pub users : Table String UserRow
  pub orgs : Table String OrganizationRow
  pub memberships : List MembershipRow
  pub sessions : List SessionRow
  -- the outbox
  pub events : List IdentityEvent

abbrev pub State : Type 0
State = Session IdentityDb IdentityEvent

abbrev pub Method : Type 0 → Type 0
Method A = Exec IdentityError State A

abbrev pub get_user : String → IdentityDb → Option UserRow
get_user user_id d = lookup user_id d.users

abbrev pub get_org : String → IdentityDb → Option OrganizationRow
get_org org_id d = lookup org_id d.orgs

abbrev pub list_memberships_for_user : String → IdentityDb → List MembershipRow
list_memberships_for_user user_id d = select (λ row. row.user_id == user_id) d.memberships

-- The primary key and the unique index on tokens refuse a second row.
unfoldable pub insert_session : SessionRow → Method ⊤
insert_session row = do
  raise_if
      (← query (λ d.
        any (λ r. r.session_id == row.session_id || r.refresh_token == row.refresh_token)
          d.sessions))
      integrity_error
  write (λ d. record d { sessions = d.sessions ++ row ∷ [] })

unfoldable pub session_by : (SessionRow → Bool) → List SessionRow → Option SessionRow
session_by p [] = none
session_by p (row ∷ rows) = if p row then some row else session_by p rows

abbrev pub has_token : String → SessionRow → Bool
has_token token_hash row = row.refresh_token == token_hash

abbrev pub get_session_by_refresh_hash : String → IdentityDb → Option SessionRow
get_session_by_refresh_hash token_hash d = session_by (has_token token_hash) d.sessions

abbrev pub get_session : String → IdentityDb → Option SessionRow
get_session session_id d = session_by (λ row. row.session_id == session_id) d.sessions

abbrev pub list_sessions_for_user : String → IdentityDb → List SessionRow
list_sessions_for_user user_id d = select (λ row. row.user_id == user_id) d.sessions

-- `row.revoked_at = now`, for the rows of a kind
abbrev pub revoke_row : (SessionRow → Bool) → (now : ℕ) → SessionRow → SessionRow
revoke_row p now row = if p row then record row { revoked_at = some now } else row

abbrev pub set_revoked : (SessionRow → Bool) → (now : ℕ) → Method ⊤
set_revoked p now = write (λ d. record d { sessions = map (revoke_row p now) d.sessions })

-- `list_active_sessions_for_user`
abbrev pub is_active_of : String → SessionRow → Bool
is_active_of user_id row = row.user_id == user_id && not (is_some row.revoked_at)
