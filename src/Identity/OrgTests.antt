-- ===== src/Identity/OrgTests.antt =====
-- An organization of linkmint-backend/identity-service, whose founder leaves.
use paylink.Prelude.{
  ℕ, ◌≤◌, String, none, some, List, [], ◌∷◌, All, lookup, string_eq, show, show_within, err,
  request, ◌≡◌, refl,
}
use paylink.Identity.Model.{IdentityDb, UserRow, active, cannot_remove_last_owner}
use paylink.Identity.Rbac.{role_in_org}
use paylink.Identity.Orgs.{
  membership_in, without_membership, count_owners, insert_org, insert_membership, create,
  user_with_email, add_member, remove_member,
}
use paylink.Identity.Owners.{
  Call, creating, adding, removing, serve, serve_all, no_orgs, serve_all-AreOwned,
}

abbrev fresh : ℕ → String
fresh n = show n

abbrev user : String → UserRow
user id = record { user_id = id; email = some id; kyc_tier = 0; status = active }

abbrev tables : IdentityDb
tables = record {
  users = ("ann", user "ann") ∷ ("bob", user "bob") ∷ [];
  orgs = [];
  memberships = [];
  sessions = [];
  events = [];
}

abbrev founding : List Call
founding = creating "ann" "Shop" "merchant" ∷ []

abbrev handing_over : List Call
handing_over =
    creating "ann" "Shop" "merchant"
    ∷ removing "ann" "0" "ann"
    ∷ adding "ann" "0" none (some "bob") "owner"
    ∷ removing "ann" "0" "ann"
    ∷ []

last_owner_stays :
    (request (remove_member "ann" "0" "ann") (serve_all fresh founding (no_orgs tables))).0
    ≡ err cannot_remove_last_owner
unfolding serve_all serve create insert_org insert_membership remove_member role_in_org
    membership_in count_owners without_membership show show_within lookup
last_owner_stays = refl

handed_over :
    (serve_all fresh handing_over (no_orgs tables)).stored.memberships
    ≡ record { org_id = "0"; user_id = "bob"; role = "owner" } ∷ []
unfolding serve_all serve create insert_org insert_membership add_member user_with_email
    remove_member role_in_org membership_in count_owners without_membership show show_within lookup
handed_over = refl

serve_all-AreOwned_example :
    let t = (serve_all fresh handing_over (no_orgs tables)).stored in
    All (λ (org_id, row). 1 ≤ count_owners org_id t.memberships) t.orgs
serve_all-AreOwned_example = serve_all-AreOwned fresh handing_over tables
