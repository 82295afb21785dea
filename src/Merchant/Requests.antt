-- ===== src/Merchant/Requests.antt =====
-- The calls of app/domain/merchants_service.py of linkmint-backend/merchant-onboarding, one by one.
use paylink.Prelude.{
  ℕ, String, ◌≡◌, ◌⊎◌, inl, inr, refl, false, not, ◌&&◌, Option, some, arith, string_eq, lookup,
  Bool-cases, Option-cases, subst, sym, All-lookup, request, is_some, ok, err,
}
use paylink.Merchant.Status.{
  can_transition, target_for, is_active, ReviewDecision, AccessClaims, org_role, is_admin_role,
  one_of, merchant_types, fee_tiers, MerchantRow, merchant_onboarded, fee_tier_changed,
  merchant_decided,
}
use paylink.Merchant.Service.{
  Settings, State, merchant_not_found, unready, decided, onboard, set_fee_tier, decide,
  get_for_member, onboarded_org, new_merchant,
}
use paylink.Merchant.Lifecycle.{onboarding, retiering, deciding}
use paylink.Merchant.Course.{MerchantUnder, IsKeyed, Course, renewed, quiet, puts_merchant}

pub onboard-Course :
    (settings : Settings) (fresh : String) (principal : AccessClaims)
    (org_id business_name : String) (registration_no : Option String) (country type : String)
    (s : State)
    → IsKeyed s.stored
    → Course settings s
        (request
          (onboard settings fresh principal org_id business_name registration_no country type)
          s).1
unfolding onboard
onboard-Course settings fresh principal org_id name reg country type s k =
    elim (Bool-cases (not (is_some (org_role principal org_id)))) [
      | inl a ↦ quiet k (ground (arith, a))
      | inr a ↦ elim (Bool-cases (not (one_of merchant_types type))) [
        | inl b ↦ quiet k (ground (arith, a, b))
        | inr b ↦ elim (Bool-cases (not (one_of settings.allowed_countries country))) [
          | inl c ↦ quiet k (ground (arith, a, b, c))
          | inr c ↦ elim (Bool-cases (onboarded_org org_id s.stored.merchants)) [
            | inl f ↦ quiet k (ground (arith, a, b, c, f))
            | inr f ↦ elim (Bool-cases (is_some (lookup fresh s.stored.merchants))) [
              | inl g ↦ quiet k (ground (arith, a, b, c, f, g))
              | inr g ↦
                  let row = new_merchant fresh org_id name reg country type in
                  let event = merchant_onboarded fresh org_id country type in
                  puts_merchant k row event (onboarding row event (ground (arith, g)) refl refl)
                    (ground (arith, a, b, c, f, g))
            ]
          ]
        ]
      ]
    ]

-- What `get_for_member` finds.
pub member-cases :
    (principal : AccessClaims) (merchant_id : String) (s : State)
    → (get_for_member principal merchant_id s ≡ (err merchant_not_found, s))
      ⊎ ((row : MerchantRow) × (lookup merchant_id s.working.merchants ≡ some row)
          × (get_for_member principal merchant_id s ≡ (ok row, s)))
unfolding get_for_member
member-cases principal merchant_id s =
    elim (Option-cases (lookup merchant_id s.working.merchants)) [
      | inl e ↦ inl (ground (arith, e))
      | inr (row, e) ↦ elim (Bool-cases (not (is_some (org_role principal row.org_id)))) [
        | inl b ↦ inl (ground (arith, e, b))
        | inr b ↦ inr (row, e, ground (arith, e, b))
      ]
    ]

pub set_fee_tier-Course :
    (settings : Settings) (principal : AccessClaims) (merchant_id tier : String) (s : State)
    → IsKeyed s.stored
    → Course settings s (request (set_fee_tier principal merchant_id tier) s).1
unfolding set_fee_tier
set_fee_tier-Course settings principal i tier s k = elim (member-cases principal i (renewed s)) [
  | inl e ↦ quiet k (ground (arith, e))
  | inr (row, found, e) ↦ elim (Option-cases (org_role principal row.org_id)) [
    | inl r ↦ quiet k (ground (arith, e, r))
    | inr (role, r) ↦ elim (Bool-cases (not (is_admin_role role))) [
      | inl a ↦ quiet k (ground (arith, e, r, a))
      | inr a ↦ elim (Bool-cases (not (one_of fee_tiers tier))) [
        | inl b ↦ quiet k (ground (arith, e, r, a, b))
        | inr b ↦
            let id = All-lookup MerchantUnder i row s.stored.merchants k.merchants found in
            let event = fee_tier_changed row.merchant_id tier in
            puts_merchant k (record row { fee_tier = tier }) event
              (retiering row tier event (ground (arith, id, found)) refl)
              (ground (arith, e, r, a, b))
      ]
    ]
  ]
]

pub decide-Course :
    (settings : Settings) (now : ℕ) (merchant_id : String) (decision : ReviewDecision)
    (reason : Option String) (s : State)
    → IsKeyed s.stored
    → Course settings s (request (decide settings now merchant_id decision reason) s).1
unfolding decide
decide-Course settings now i decision reason s k =
    elim (Option-cases (lookup i s.stored.merchants)) [
      | inl e ↦ quiet k (ground (arith, e))
      | inr (row, e) ↦
          let target = target_for decision in
          elim (Bool-cases (not (can_transition row.status target))) [
            | inl a ↦ quiet k (ground (arith, e, a))
            | inr a ↦ elim (Bool-cases (is_active target && unready settings i s.stored)) [
              | inl b ↦ quiet k (ground (arith, e, a, b))
              | inr b ↦
                  let id = All-lookup MerchantUnder i row s.stored.merchants k.merchants e in
                  let event = merchant_decided row.merchant_id target decision reason in
                  puts_merchant k (decided now target reason row) event
                    (deciding row now target reason event (ground (arith, id, e))
                      (ground (arith, a))
                      (subst (λ j. is_active target && unready settings j s.stored ≡ false) (sym id)
                        b)
                      refl)
                    (ground (arith, e, a, b))
            ]
          ]
    ]
