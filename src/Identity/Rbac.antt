-- ===== src/Identity/Rbac.antt =====
-- linkmint-backend/identity-service/app/domain/rbac.py: what a role in an organization permits. The
-- scopes of API keys are not modelled.
use paylink.Prelude.{
  String, Bool, true, false, if◌then◌else◌, Option, none, some, List, [], ◌∷◌, string_eq, ◌==◌,
  pure, raise,
}
use paylink.Identity.Model.{MembershipRow, Method, org_not_found, forbidden}

pub data Permission : Type 0 where
  org_read org_update org_delete member_read member_invite member_remove : Permission
  apikey_read apikey_issue apikey_revoke : Permission

-- `Role`
abbrev pub all_roles : List String
all_roles = "owner" ∷ "admin" ∷ "developer" ∷ "operator" ∷ "viewer" ∷ []

abbrev is_delete : Permission → Bool
is_delete org_delete = true
is_delete _ = false

abbrev for_viewer : Permission → Bool
for_viewer org_read = true
for_viewer member_read = true
for_viewer _ = false

abbrev for_operator : Permission → Bool
for_operator apikey_read = true
for_operator p = for_viewer p

abbrev for_developer : Permission → Bool
for_developer apikey_issue = true
for_developer apikey_revoke = true
for_developer p = for_operator p

abbrev pub can : (role : String) → Permission → Bool
can role permission =
    if role == "owner"
    then true
    else if role == "admin"
    then (if is_delete permission then false else true)
    else if role == "developer"
    then for_developer permission
    else if role == "operator"
    then for_operator permission
    else if role == "viewer"
    then for_viewer permission
    else false

-- the role in an organization, of the memberships of one user
unfoldable pub role_in_org : (org_id : String) → List MembershipRow → Option String
role_in_org org_id [] = none
role_in_org org_id (row ∷ rows) =
    if row.org_id == org_id then some row.role else role_in_org org_id rows

abbrev pub require_role : Option String → Permission → Method String
require_role none permission = raise org_not_found
require_role (some role) permission = if can role permission then pure role else raise forbidden

abbrev pub require : List MembershipRow → (org_id : String) → Permission → Method String
require roles org_id permission = require_role (role_in_org org_id roles) permission
