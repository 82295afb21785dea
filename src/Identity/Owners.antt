-- ===== src/Identity/Owners.antt =====
-- Organizations of linkmint-backend/identity-service keep an owner.
use paylink.Prelude.{
  ℕ, ◌+◌, ◌≤◌, String, false, ◌&&◌, if◌then◌else◌, Option, some, is_some, List, [], ◌∷◌, ◌++◌, any,
  All, All-append, length, leb, string_eq, ◌==◌, eq_iff_at, request, ◌≡◌, inl, inr, refl, sym,
  subst, arith, Bool-cases, Option-cases,
}
use paylink.Identity.Model.{
  OrganizationRow, MembershipRow, IdentityDb, State, get_org, list_memberships_for_user,
  org_created, member_added, member_removed,
}
use paylink.Identity.Rbac.{member_invite, member_remove, all_roles, can, role_in_org}
use paylink.Identity.Orgs.{
  is_membership, membership_in, without_membership, is_owner_of, count_owners, insert_org,
  all_org_types, insert_membership, create, target_of, add_member, remove_member,
}

pub data Call : Type 0 where
  creating : (creator_id name org_type : String) → Call
  adding :
      (actor_id org_id : String) (target_user_id target_email : Option String) (role : String)
      → Call
  removing : (actor_id org_id target_user_id : String) → Call

module _ (fresh : ℕ → String) where
  unfoldable pub serve : Call → State → State
  serve (creating creator_id name org_type) s =
      (request (create fresh creator_id name org_type) s).1
  serve (adding actor_id org_id target_user_id target_email role) s =
      (request (add_member actor_id org_id target_user_id target_email role) s).1
  serve (removing actor_id org_id target_user_id) s =
      (request (remove_member actor_id org_id target_user_id) s).1

  unfoldable pub serve_all : List Call → State → State
  serve_all [] s = s
  serve_all (call ∷ calls) s = serve_all calls (serve call s)

-- a service with any users and sessions, and no organization
abbrev pub no_orgs : IdentityDb → State
no_orgs d =
    let d0 : IdentityDb = record d { orgs = []; memberships = [] } in
    record { stored = d0; working = d0; published = [] }

-- Every organization has an owner.
abbrev pub AreOwned : IdentityDb → Type 0
AreOwned d = All (λ (org_id, row). 1 ≤ count_owners org_id d.memberships) d.orgs

count_owners-append :
    (org_id : String) (ms : List MembershipRow) (m : MembershipRow)
    → count_owners org_id (ms ++ m ∷ [])
      ≡ count_owners org_id ms + (if is_owner_of org_id m then 1 else 0)
unfolding count_owners
count_owners-append org_id [] m = omega arith
count_owners-append org_id (x ∷ ms) m = omega (arith, count_owners-append org_id ms m)

count_owners-without :
    (other org_id user_id : String) (ms : List MembershipRow) (m : MembershipRow)
    → membership_in org_id user_id ms ≡ some m
    → count_owners other ms
      ≡ (if is_owner_of other m then 1 else 0)
        + count_owners other (without_membership org_id user_id ms)
unfolding count_owners membership_in without_membership
count_owners-without other org_id user_id [] m found = absurd (ground (arith, found))
count_owners-without other org_id user_id (x ∷ ms) m found =
    elim (Bool-cases (is_membership org_id user_id x)) [
      | inl e ↦ let same : x ≡ m = ground (arith, e, found) in rw (e, same) refl
      | inr e ↦
          let rest = count_owners-without other org_id user_id ms m (ground (arith, e, found)) in
          rw e (omega (arith, rest))
    ]

membership_in_org :
    (org_id user_id : String) (ms : List MembershipRow) (m : MembershipRow)
    → membership_in org_id user_id ms ≡ some m
    → m.org_id ≡ org_id
unfolding membership_in
membership_in_org org_id user_id [] m found = absurd (ground (arith, found))
membership_in_org org_id user_id (x ∷ ms) m found =
    elim (Bool-cases (is_membership org_id user_id x)) [
      | inl e ↦ ground (arith, e, found, eq_iff_at x.org_id org_id)
      | inr e ↦ membership_in_org org_id user_id ms m (ground (arith, e, found))
    ]

-- One more membership takes no owner away.
more_owners :
    (ms : List MembershipRow) (m : MembershipRow) (orgs : List (String × OrganizationRow))
    → All (λ (org_id, row). 1 ≤ count_owners org_id ms) orgs
    → All (λ (org_id, row). 1 ≤ count_owners org_id (ms ++ m ∷ [])) orgs
more_owners ms m [] h = tt
more_owners ms m ((org_id, row) ∷ orgs) h =
    ((omega (arith, h.0, count_owners-append org_id ms m)), more_owners ms m orgs h.1)

-- Nor does the removal that the guard admits.
fewer_owners :
    (org_id user_id : String) (ms : List MembershipRow) (m : MembershipRow)
    (orgs : List (String × OrganizationRow))
    → membership_in org_id user_id ms ≡ some m
    → (m.role == "owner" && leb (count_owners org_id ms) 1) ≡ false
    → All (λ (other, row). 1 ≤ count_owners other ms) orgs
    → All (λ (other, row). 1 ≤ count_owners other (without_membership org_id user_id ms)) orgs
fewer_owners org_id user_id ms m [] found guard h = tt
fewer_owners org_id user_id ms m ((other, row) ∷ orgs) found guard h =
    let taken = count_owners-without other org_id user_id ms m found in
    let own = membership_in_org org_id user_id ms m found in
    let here : 1 ≤ count_owners other (without_membership org_id user_id ms) =
      elim (Bool-cases (is_owner_of other m)) [
        | inr e ↦ ground (arith, taken, e, h.0)
        | inl e ↦
            let same : org_id ≡ other = ground (arith, e, own, eq_iff_at m.org_id other) in
            let many : leb (count_owners org_id ms) 1 ≡ false = ground (arith, e, guard) in
            let two : leb (count_owners other ms) 1 ≡ false =
              subst (λ o. leb (count_owners o ms) 1 ≡ false) same many in
            ground (arith, taken, e, two)
      ] in
    (here, fewer_owners org_id user_id ms m orgs found guard h.1)

module _ (fresh : ℕ → String) where
  create-AreOwned :
      (creator_id name org_type : String) (s : State)
      → AreOwned s.stored
      → AreOwned (request (create fresh creator_id name org_type) s).1.stored
  unfolding create insert_org insert_membership
  create-AreOwned creator_id name org_type s owned =
      let d = s.stored in
      let run = request (create fresh creator_id name org_type) s in
      let org_id = fresh (length d.orgs) in
      let m : MembershipRow = record { org_id = org_id; user_id = creator_id; role = "owner" } in
      let row : OrganizationRow = record {
        name = name;
        type = org_type;
        created_by = creator_id;
      } in
      elim (Bool-cases (any (λ t. t == org_type) all_org_types)) [
        | inr a ↦ let ran : run.1.stored ≡ d = ground (arith, a) in subst AreOwned (sym ran) owned
        | inl a ↦ elim (Bool-cases (is_some (get_org org_id d))) [
          | inl b ↦
              let ran : run.1.stored ≡ d = ground (arith, a, b) in subst AreOwned (sym ran) owned
          | inr b ↦ elim (Bool-cases (is_some (membership_in org_id creator_id d.memberships))) [
            | inl c ↦
                let ran : run.1.stored ≡ d = ground (arith, a, b, c) in
                subst AreOwned (sym ran) owned
            | inr c ↦
                let d' : IdentityDb = record d {
                  orgs = d.orgs ++ (org_id, row) ∷ [];
                  memberships = d.memberships ++ m ∷ [];
                  events = d.events ++ org_created org_id org_type ∷ [];
                } in
                let ran : run.1.stored ≡ d' = ground (arith, a, b, c) in
                let founder : 1 ≤ count_owners org_id (d.memberships ++ m ∷ []) =
                  ground
                    (arith, count_owners-append org_id d.memberships m, eq_iff_at org_id org_id) in
                subst AreOwned (sym ran) (
                  All-append _ d.orgs ((org_id, row) ∷ [])
                    (more_owners d.memberships m d.orgs owned) (founder, tt))
          ]
        ]
      ]

add_member-AreOwned :
    (actor_id org_id : String) (target_user_id target_email : Option String) (role : String)
    (s : State)
    → AreOwned s.stored
    → AreOwned (request (add_member actor_id org_id target_user_id target_email role) s).1.stored
unfolding add_member insert_membership
add_member-AreOwned actor_id org_id target_user_id target_email role s owned =
    let d = s.stored in
    let run = request (add_member actor_id org_id target_user_id target_email role) s in
    let unchanged : run.1.stored ≡ d → AreOwned run.1.stored =
      λ ran. subst AreOwned (sym ran) owned in
    elim (Option-cases (role_in_org org_id (list_memberships_for_user actor_id d))) [
      | inl a ↦ unchanged (ground (arith, a))
      | inr (mine, a) ↦ elim (Bool-cases (can mine member_invite)) [
        | inr b ↦ unchanged (ground (arith, a, b))
        | inl b ↦ elim (Bool-cases (any (λ r. r == role) all_roles)) [
          | inr c ↦ unchanged (ground (arith, a, b, c))
          | inl c ↦ elim (Option-cases (target_of target_user_id target_email d)) [
            | inl e ↦ unchanged (ground (arith, a, b, c, e))
            | inr (target, e) ↦
                elim (Bool-cases (is_some (membership_in org_id target.user_id d.memberships))) [
                  | inl f ↦ unchanged (ground (arith, a, b, c, e, f))
                  | inr f ↦
                      let m : MembershipRow = record {
                        org_id = org_id;
                        user_id = target.user_id;
                        role = role;
                      } in
                      let d' : IdentityDb = record d {
                        memberships = d.memberships ++ m ∷ [];
                        events = d.events ++ member_added org_id target.user_id role ∷ [];
                      } in
                      let ran : run.1.stored ≡ d' = ground (arith, a, b, c, e, f) in
                      subst AreOwned (sym ran) (more_owners d.memberships m d.orgs owned)
                ]
          ]
        ]
      ]
    ]

remove_member-AreOwned :
    (actor_id org_id target_user_id : String) (s : State)
    → AreOwned s.stored
    → AreOwned (request (remove_member actor_id org_id target_user_id) s).1.stored
unfolding remove_member
remove_member-AreOwned actor_id org_id target_user_id s owned =
    let d = s.stored in
    let run = request (remove_member actor_id org_id target_user_id) s in
    let unchanged : run.1.stored ≡ d → AreOwned run.1.stored =
      λ ran. subst AreOwned (sym ran) owned in
    elim (Option-cases (role_in_org org_id (list_memberships_for_user actor_id d))) [
      | inl a ↦ unchanged (ground (arith, a))
      | inr (mine, a) ↦ elim (Bool-cases (can mine member_remove)) [
        | inr b ↦ unchanged (ground (arith, a, b))
        | inl b ↦ elim (Option-cases (membership_in org_id target_user_id d.memberships)) [
          | inl c ↦ unchanged (ground (arith, a, b, c))
          | inr (m, c) ↦
              elim (Bool-cases (m.role == "owner" && leb (count_owners org_id d.memberships) 1)) [
                | inl e ↦ unchanged (ground (arith, a, b, c, e))
                | inr e ↦
                    let d' : IdentityDb = record d {
                      memberships = without_membership org_id target_user_id d.memberships;
                      events = d.events ++ member_removed org_id target_user_id ∷ [];
                    } in
                    let ran : run.1.stored ≡ d' = ground (arith, a, b, c, e) in
                    subst AreOwned (sym ran)
                      (fewer_owners org_id target_user_id d.memberships m d.orgs c e owned)
              ]
        ]
      ]
    ]

module _ (fresh : ℕ → String) where
  all-AreOwned :
      (calls : List Call) (s : State)
      → AreOwned s.stored
      → AreOwned (serve_all fresh calls s).stored
  unfolding serve_all serve
  all-AreOwned [] s owned = owned
  all-AreOwned (creating creator_id name org_type ∷ calls) s owned =
      all-AreOwned calls _ (create-AreOwned fresh creator_id name org_type s owned)
  all-AreOwned (adding actor_id org_id target_user_id target_email role ∷ calls) s owned =
      all-AreOwned calls _
        (add_member-AreOwned actor_id org_id target_user_id target_email role s owned)
  all-AreOwned (removing actor_id org_id target_user_id ∷ calls) s owned =
      all-AreOwned calls _ (remove_member-AreOwned actor_id org_id target_user_id s owned)

  -- After any calls on a service without organizations, each organization has an owner.
  pub serve_all-AreOwned :
      (calls : List Call) (d : IdentityDb)
      → let t = (serve_all fresh calls (no_orgs d)).stored in
        All (λ (org_id, row). 1 ≤ count_owners org_id t.memberships) t.orgs
  serve_all-AreOwned calls d = all-AreOwned calls (no_orgs d) tt
