-- ===== src/Identity/Tests.antt =====
-- A refresh token of linkmint-backend/identity-service that is exchanged and presented again.
use paylink.Prelude.{
  true, none, List, [], ◌∷◌, lookup, string_eq, ok, err, request, ◌≡◌, refl, show, show_within,
}
use Prim.Native.String.{◌++◌ as append}
use paylink.Identity.Model.{
  invalid_token, active, UserRow, SessionRow, IdentityDb, State, insert_session, session_by,
}
use paylink.Identity.Sessions.{AuthTokens, Secrets, issue, renew, rotate}
use paylink.Identity.Revoked.{Call, issuing, rotating, serve_all, AreRevoked}
use paylink.Identity.Rotation.{rotate_once}

abbrev secrets : Secrets
secrets = record {
  hash_refresh_token = λ token. append "hash of " token;
  issue_access = λ claims. ("access", 900);
  new_session = λ n. (append "s" (show n), append "t" (show n));
  refresh_token_ttl_seconds = 3600;
}

abbrev user : UserRow
user = record { user_id = "u"; email = none; kyc_tier = 1; status = active }

abbrev first_session : SessionRow
first_session = record {
  session_id = "s0";
  user_id = "u";
  refresh_token = "hash of t0";
  user_agent = none;
  ip = none;
  expires_at = 3600;
  revoked_at = none;
}

abbrev start : State
start =
    let d : IdentityDb = record {
      users = ("u", user) ∷ [];
      orgs = [];
      memberships = [];
      sessions = first_session ∷ [];
      events = [];
    } in
    record { stored = d; working = d; published = [] }

abbrev exchanged : AuthTokens
exchanged = record { access_token = "access"; refresh_token = "t1"; expires_in = 900 }

rotated : (request (rotate secrets 5 "t0" none none) start).0 ≡ ok exchanged
unfolding rotate renew issue insert_session session_by lookup show show_within
rotated = refl

abbrev later_calls : List Call
later_calls = rotating 6 "t1" none none ∷ issuing 7 user none none true ∷ []

rotate_once_example :
    let later = serve_all secrets later_calls (request (rotate secrets 5 "t0" none none) start).1 in
    let again = request (rotate secrets 9 "t0" none none) later in
    (again.0 ≡ err invalid_token) × AreRevoked "u" again.1.stored.sessions
unfolding session_by
rotate_once_example =
    rotate_once secrets 5 "t0" none none first_session exchanged start later_calls 9 none none refl
      rotated
