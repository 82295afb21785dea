-- ===== src/Identity/Lost.antt =====
-- The session of a token of linkmint-backend/identity-service, once it is revoked, under the writes
-- to the table of sessions.
use paylink.Prelude.{
  ℕ, String, Bool, true, some, is_some, List, [], ◌∷◌, ◌++◌, map, string_eq, ◌≡◌, inl, inr, refl,
  ap, ◌∙◌, arith, Bool-cases,
}
use paylink.Identity.Model.{SessionRow, session_by, has_token, revoke_row}

-- The session of a token is a user's and revoked.
pub record IsLost (token_hash user_id : String) (rows : List SessionRow) : Type 0 where
  pub row : SessionRow
  pub found : session_by (has_token token_hash) rows ≡ some row
  pub of_user : row.user_id ≡ user_id
  pub revoked : is_some row.revoked_at ≡ true

module _ (h u : String) where
  pub IsLost-append : (rows more : List SessionRow) → IsLost h u rows → IsLost h u (rows ++ more)
  unfolding session_by
  IsLost-append [] more lost = absurd (ground (arith, lost.found))
  IsLost-append (r ∷ rows) more lost = elim (Bool-cases (has_token h r)) [
    | inl e ↦ record {
      row = lost.row;
      found = ground (arith, e, lost.found);
      of_user = lost.of_user;
      revoked = lost.revoked;
    }
    | inr e ↦
        let rest = IsLost-append rows more (record {
          row = lost.row;
          found = ground (arith, e, lost.found);
          of_user = lost.of_user;
          revoked = lost.revoked;
        }) in
        record {
          row = rest.row;
          found = ground (arith, e, rest.found);
          of_user = rest.of_user;
          revoked = rest.revoked;
        }
  ]

  pub IsLost-revoke_row :
      (p : SessionRow → Bool) (now : ℕ) (rows : List SessionRow)
      → IsLost h u rows
      → IsLost h u (map (revoke_row p now) rows)
  unfolding session_by
  IsLost-revoke_row p now [] lost = absurd (ground (arith, lost.found))
  IsLost-revoke_row p now (r ∷ rows) lost = elim (Bool-cases (has_token h r)) [
    | inl e ↦
        let same : r ≡ lost.row = ground (arith, e, lost.found) in
        let mine : r.user_id ≡ u = ap (λ x. x.user_id) same ∙ lost.of_user in
        let gone : is_some r.revoked_at ≡ true =
          ap (λ x. is_some x.revoked_at) same ∙ lost.revoked in
        elim (Bool-cases (p r)) [
          | inl f ↦ record {
            row = record r { revoked_at = some now };
            found = ground (arith, e, f);
            of_user = mine;
            revoked = refl;
          }
          | inr f ↦ record { row = r; found = ground (arith, e, f); of_user = mine; revoked = gone }
        ]
    | inr e ↦
        let rest = IsLost-revoke_row p now rows (record {
          row = lost.row;
          found = ground (arith, e, lost.found);
          of_user = lost.of_user;
          revoked = lost.revoked;
        }) in
        elim (Bool-cases (p r)) [
          | inl f ↦ record {
            row = rest.row;
            found = ground (arith, e, f, rest.found);
            of_user = rest.of_user;
            revoked = rest.revoked;
          }
          | inr f ↦ record {
            row = rest.row;
            found = ground (arith, e, f, rest.found);
            of_user = rest.of_user;
            revoked = rest.revoked;
          }
        ]
  ]
