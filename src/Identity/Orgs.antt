-- ===== src/Identity/Orgs.antt =====
-- linkmint-backend/identity-service/app/domain/orgs_service.py. The identifiers of `uuid.uuid4()`
-- are an argument, by the number of organizations there are when one is drawn.
use paylink.Prelude.{
  ℕ, ◌+◌, String, Bool, ◌&&◌, not, if◌then◌else◌, Option, none, some, is_some, List, [], ◌∷◌, ◌++◌,
  any, length, leb, string_eq, ◌==◌, ⊤, pure, raise_if, or_raise, ◌>>=◌, ◌>>◌, query, write, commit,
  publish,
}
use paylink.Identity.Model.{
  integrity_error, invalid_payload, member_not_found, member_exists, cannot_remove_last_owner,
  UserRow, OrganizationRow, MembershipRow, IdentityEvent, org_created, member_added, member_removed,
  IdentityDb, Method, get_user, get_org, list_memberships_for_user,
}
use paylink.Identity.Rbac.{member_invite, member_remove, all_roles, require}

abbrev pub is_membership : (org_id user_id : String) → MembershipRow → Bool
is_membership org_id user_id row = row.org_id == org_id && row.user_id == user_id

unfoldable pub membership_in : (org_id user_id : String) → List MembershipRow → Option MembershipRow
membership_in org_id user_id [] = none
membership_in org_id user_id (row ∷ rows) =
    if is_membership org_id user_id row then some row else membership_in org_id user_id rows

-- The primary key finds one row.
unfoldable pub without_membership :
    (org_id user_id : String) → List MembershipRow → List MembershipRow
without_membership org_id user_id [] = []
without_membership org_id user_id (row ∷ rows) =
    if is_membership org_id user_id row then rows else row ∷ without_membership org_id user_id rows

abbrev pub is_owner_of : (org_id : String) → MembershipRow → Bool
is_owner_of org_id row = row.org_id == org_id && row.role == "owner"

unfoldable pub count_owners : (org_id : String) → List MembershipRow → ℕ
count_owners org_id [] = 0
count_owners org_id (row ∷ rows) =
    (if is_owner_of org_id row then 1 else 0) + count_owners org_id rows

abbrev pub add_event : IdentityEvent → Method ⊤
add_event e = write (λ d. record d { events = d.events ++ e ∷ [] })

unfoldable pub insert_org : String → OrganizationRow → Method ⊤
insert_org org_id row = do
  raise_if (← query (λ d. is_some (get_org org_id d))) integrity_error
  write (λ d. record d { orgs = d.orgs ++ (org_id, row) ∷ [] })

unfoldable pub insert_membership : MembershipRow → Method ⊤
insert_membership row = do
  raise_if (← query (λ d. is_some (membership_in row.org_id row.user_id d.memberships)))
      integrity_error
  write (λ d. record d { memberships = d.memberships ++ row ∷ [] })

-- `OrgType`
abbrev pub all_org_types : List String
all_org_types = "merchant" ∷ "developer" ∷ "admin" ∷ []

unfoldable pub create : (fresh : ℕ → String) (creator_id name org_type : String) → Method String
unfolding insert_org insert_membership
create fresh creator_id name org_type = do
  raise_if (not (any (λ t. t == org_type) all_org_types)) invalid_payload
  org_id ← query (λ d. fresh (length d.orgs))
  insert_org org_id (record { name = name; type = org_type; created_by = creator_id })
  insert_membership (record { org_id = org_id; user_id = creator_id; role = "owner" })
  add_event (org_created org_id org_type)
  commit
  publish (org_created org_id creator_id)
  publish (member_added org_id creator_id "owner")
  pure org_id

-- `get_user_by_email`
unfoldable pub user_with_email : (email : String) → List (String × UserRow) → Option UserRow
user_with_email email [] = none
user_with_email email ((_, user) ∷ users) = elim user.email [
  | none ↦ user_with_email email users
  | some other ↦ if other == email then some user else user_with_email email users
]

-- the user who is to be added
abbrev pub target_of : (target_user_id target_email : Option String) → IdentityDb → Option UserRow
target_of (some user_id) email d = get_user user_id d
target_of none (some email) d = user_with_email email d.users
target_of none none d = none

unfoldable pub add_member :
    (actor_id org_id : String) (target_user_id target_email : Option String) (role : String)
    → Method MembershipRow
unfolding insert_membership
add_member actor_id org_id target_user_id target_email role = do
  roles ← query (list_memberships_for_user actor_id)
  require roles org_id member_invite
  raise_if (not (any (λ r. r == role) all_roles)) invalid_payload
  found ← query (target_of target_user_id target_email)
  target ← or_raise found member_not_found
  raise_if (← query (λ d. is_some (membership_in org_id target.user_id d.memberships)))
      member_exists
  insert_membership (record { org_id = org_id; user_id = target.user_id; role = role })
  add_event (member_added org_id target.user_id role)
  commit
  publish (member_added org_id target.user_id role)
  pure (record { org_id = org_id; user_id = target.user_id; role = role })

unfoldable pub remove_member : (actor_id org_id target_user_id : String) → Method ⊤
remove_member actor_id org_id target_user_id = do
  roles ← query (list_memberships_for_user actor_id)
  require roles org_id member_remove
  found ← query (λ d. membership_in org_id target_user_id d.memberships)
  membership ← or_raise found member_not_found
  owners ← query (λ d. count_owners org_id d.memberships)
  raise_if (membership.role == "owner" && leb owners 1) cannot_remove_last_owner
  write (λ d. record d { memberships = without_membership org_id target_user_id d.memberships })
  add_event (member_removed org_id target_user_id)
  commit
  publish (member_removed org_id target_user_id)
