-- ===== src/Auth/Examples.antt =====
-- The theorems at concrete users, sessions and flows.
use traio.Prelude.{
  ℕ, ◌+◌, ◌%◌, ◌<◌, ◌≤◌, ◌≡◌, ◌↔◌, refl, true, false, List, [], ◌∷◌, some, Result, ok, err, All,
  map, arith, is_empty, if◌then◌else◌, ◌&&◌,
}
use traio.Prelude.Int.{pos}
use traio.Text.{Text, codes}
use traio.Activity.Types.{eq_ℤ}
use traio.Auth.Stamp.{Instant, add_seconds, stamp_le}
use traio.Auth.Tables.{
  AuthUser, Workspace, AuthIdentity, AuthFlow, BrokerOAuthFlow, AuthSession, Directory, AuthError,
  not_found, invalid,
}
use traio.Auth.Members.{find_role, owners, delete_workspace_member}
use traio.Auth.Members.Join.{upsert_oidc_identity, find_workspace}
use traio.Auth.Members.Password.{find_user_id}
use traio.Auth.Flows.Returned.{LeavesFlow}
use traio.Text.Hex.{hex_encode}
use traio.Text.Trim.{trim_space}
use traio.Auth.Members.Admitted.{IsAdmitted, upsert_oidc_identity-IsAdmitted}
use traio.Auth.Members.Owner.{
  HasOwner, MemberCall, oidc, update_role, delete, run_calls, run_calls-HasOwner,
}
use traio.Auth.Flows.Once.{
  FlowCall, create, consume, run_flows, rows_of, created_of, run_flows_once,
}
use traio.Auth.Sessions.{
  password, Principal, principal_of, LoginResult, hash_token, new_session, create_login_session,
  authenticate, validate_csrf, logout,
}
use traio.Auth.Sessions.Laws.{IsIdentity, IsSessionOf, authenticate_iff}
use traio.Auth.Sessions.Revoked.{deleted_member-IsLockedOut}
use traio.Auth.Sessions.Login.{login_authenticates}
use traio.Auth.Login.{
  AuthState, Claims, Provider, begin_broker_oauth, consume_broker_oauth, complete_login,
}
use traio.Auth.Login.Proven.{IsLogin, complete_login-IsLogin}
use traio.Auth.Login.Broker.{state_hash, expires_at, flow_begun, broker_oauth_returns}

abbrev same_text : Text → Text
same_text t = t

-- A digest of bytes, for the tests.
abbrev digest : Text → List ℕ
digest t = map (λ c. c % 256) t

digest_bytes : (t : Text) → All (λ b. b < 256) (digest t)
digest_bytes [] = tt
digest_bytes (c ∷ t) = (omega arith, digest_bytes t)

abbrev at : ℕ → Instant
at s = record { seconds = s; nanos = 5 }

abbrev ann : AuthUser
ann = record {
  id = pos 1;
  email = codes "ann@x";
  name = codes "Ann";
  issuer = codes "iss";
  subject = codes "ann";
}

abbrev bob : AuthUser
bob = record {
  id = pos 2;
  email = codes "bob@x";
  name = codes "Bob";
  issuer = codes "iss";
  subject = codes "bob";
}

abbrev home : Workspace
home = record { id = pos 1; name = "Traio"; slug = "default" }

abbrev directory : Directory
directory = record {
  workspaces = home ∷ [];
  users = ann ∷ bob ∷ [];
  next_user = 3;
  credentials = [];
  members =
      record { workspace_id = pos 1; user_id = pos 1; role = "owner" }
      ∷ record { workspace_id = pos 1; user_id = pos 2; role = "member" }
      ∷ [];
  invites =
      record { workspace_id = pos 1; email = codes "eve@x"; role = "viewer"; invited_by = pos 1 }
      ∷ [];
  sessions = [];
}

directory-HasOwner : HasOwner (pos 1) directory
unfolding owners find_role
directory-HasOwner = record { unique = (refl, (refl, tt)); owned = omega arith }

abbrev calls : List MemberCall
calls =
    update_role (pos 1) (pos 1) "viewer"
    ∷ update_role (pos 1) (pos 2) "owner"
    ∷ delete (pos 1) (pos 1)
    ∷ oidc (codes "iss") (codes "eve") (codes "eve@x") (codes "Eve")
    ∷ []

run_calls-HasOwner_example : HasOwner (pos 1) (run_calls same_text same_text calls directory)
run_calls-HasOwner_example =
    run_calls-HasOwner (pos 1) same_text same_text calls directory directory-HasOwner

-- The tables that an answer leaves.
abbrev left_of {ℓ} : {A : Type ℓ} → Result AuthError (A × Directory) → Directory
left_of (ok (a, d)) = d
left_of (err reason) = directory

abbrev left_by : Result AuthError Directory → Directory
left_by (ok d) = d
left_by (err reason) = directory

abbrev eve : AuthIdentity
eve = record {
  user = record {
    id = pos 3;
    email = codes "eve@x";
    name = codes "Eve";
    issuer = codes "iss";
    subject = codes "eve";
  };
  workspace = home;
  role = "viewer";
}

abbrev joined : Directory
joined = left_of (
    upsert_oidc_identity same_text (codes " iss") (codes "eve") (codes "eve@x") (codes "Eve")
      directory)

eve_joins :
    upsert_oidc_identity same_text
      (codes " iss")
      (codes "eve")
      (codes "eve@x")
      (codes "Eve")
      directory
    ≡ ok (eve, joined)
unfolding upsert_oidc_identity
eve_joins = refl

upsert_oidc_identity-IsAdmitted_example :
    (eve.user.issuer ≡ trim_space (codes " iss"))
    × (eve.user.subject ≡ trim_space (codes "eve"))
    × IsAdmitted same_text (codes "eve@x") directory eve joined
upsert_oidc_identity-IsAdmitted_example =
    upsert_oidc_identity-IsAdmitted same_text (codes " iss") (codes "eve") (codes "eve@x")
      (codes "Eve") directory joined eve eve_joins

abbrev flow : AuthFlow
flow = record {
  state_hash = codes "state";
  code_verifier = "verifier";
  nonce = "nonce";
  return_to = codes "/";
  expires_at = at 700;
}

abbrev hash_of : AuthFlow → Text
hash_of f = f.state_hash

abbrev expiry_of : AuthFlow → Instant
expiry_of f = f.expires_at

abbrev flow_calls : List (FlowCall AuthFlow)
flow_calls =
    create (at 100) flow ∷ consume (codes "state") (at 200) ∷ consume (codes "state") (at 201) ∷ []

run_flows_once_example :
    rows_of hash_of expiry_of (codes "state") (run_flows hash_of expiry_of flow_calls []).0
      + rows_of hash_of expiry_of (codes "state") (run_flows hash_of expiry_of flow_calls []).1
    ≤ rows_of hash_of expiry_of (codes "state") []
      + created_of hash_of expiry_of (codes "state") flow_calls
run_flows_once_example = run_flows_once hash_of expiry_of (codes "state") flow_calls []

-- Ann's login.
abbrev ann_identity : AuthIdentity
ann_identity = record { user = ann; workspace = home; role = "owner" }

abbrev login : LoginResult
login = record {
  identity = ann_identity;
  session_token = codes "token";
  csrf_token = codes "csrf";
  expires_at = at 3700;
}

logged_in :
    (create_login_session digest
      (codes "token")
      (codes "csrf")
      (at 100)
      3600
      ann_identity
      directory).0
    ≡ ok login
unfolding create_login_session hash_token
logged_in = refl

ann-IsIdentity :
    IsIdentity directory
      (new_session digest (codes "token") (codes "csrf") (at 100) 3600 ann_identity)
      ann_identity
unfolding find_user_id find_workspace find_role
ann-IsIdentity = record { user = refl; workspace = refl; role = refl }

token_kept : is_empty (trim_space (codes "token")) ≡ false
unfolding trim_space
token_kept = refl

login_authenticates_example :
    let s = new_session digest (codes "token") (codes "csrf") (at 100) 3600 ann_identity in
    let d =
      (create_login_session digest
        (codes "token")
        (codes "csrf")
        (at 100)
        3600
        ann_identity
        directory).1 in
    ((authenticate digest password (codes "token") (at 3699) d).0
      ≡ ok (principal_of password ann_identity, s))
    × ((validate_csrf digest s (codes "other") ≡ true)
        ↔ (digest (codes "csrf") ≡ digest (codes "other")))
    × ((authenticate digest password (codes "token") (at 300) (logout digest (codes "token") d)).0
        ≡ err not_found)
login_authenticates_example =
    login_authenticates digest password (codes "token") (codes "csrf") (codes "other") (at 100)
      (at 3699) (at 300) 3600 ann_identity directory login digest_bytes token_kept ann-IsIdentity
      logged_in refl

abbrev with_session : Directory
with_session =
    (create_login_session digest (codes "token") (codes "csrf") (at 100) 3600 ann_identity
      directory).1

abbrev ann_session : AuthSession
ann_session = new_session digest (codes "token") (codes "csrf") (at 100) 3600 ann_identity

authenticate_iff_example :
    ((authenticate digest password (codes "token") (at 200) with_session).0
      ≡ ok (principal_of password ann_identity, ann_session))
    ↔ IsSessionOf digest password
        (codes "token")
        (at 200)
        with_session
        (principal_of password ann_identity)
        ann_session
authenticate_iff_example =
    authenticate_iff digest password (codes "token") (at 200) with_session
      (principal_of password ann_identity) ann_session

-- Bob is deleted while Ann has a session.
abbrev without_bob : Directory
without_bob = left_by (delete_workspace_member (pos 1) (pos 2) with_session)

bob_deleted : delete_workspace_member (pos 1) (pos 2) with_session ≡ ok without_bob
unfolding delete_workspace_member create_login_session hash_token
bob_deleted = refl

ann_stays :
    (authenticate digest password (codes "token") (at 200) without_bob).0
    ≡ ok (principal_of password ann_identity, ann_session)
unfolding authenticate delete_workspace_member create_login_session hex_encode
ann_stays = refl

deleted_member-IsLockedOut_example :
    ¬ ((ann_session.workspace_id ≡ pos 1) × (ann_session.user_id ≡ pos 2))
deleted_member-IsLockedOut_example =
    deleted_member-IsLockedOut digest password (pos 1) (pos 2) with_session without_bob
      (codes "token") (at 200) (principal_of password ann_identity) ann_session bob_deleted
      ann_stays

-- A sign-in through a provider, and the authorization of a broker's connection.
abbrev claims : Claims
claims = record {
  subject = codes "eve";
  email = codes "eve@x";
  email_verified = true;
  name = codes "Eve";
  nonce = "nonce";
}

abbrev provider : Provider
provider = record {
  exchange = λ code verifier. ok (some (codes "raw"));
  verify = λ raw. ok (codes "iss");
  claims = λ raw. ok claims;
}

abbrev state : AuthState
state = record {
  directory = directory;
  auth_flows = record flow { state_hash = hash_token digest (codes "state") } ∷ [];
  broker_flows = [];
}

abbrev eve_login : LoginResult
eve_login = record {
  identity = eve;
  session_token = codes "token";
  csrf_token = codes "csrf";
  expires_at = at 3800;
}

eve_signs_in :
    (complete_login digest same_text provider
      (codes "state")
      (codes "code")
      (codes "token")
      (codes "csrf")
      (at 200)
      3600
      state).0
    ≡ ok eve_login
unfolding complete_login hex_encode stamp_le
eve_signs_in = refl

complete_login-IsLogin_example :
    IsLogin digest same_text provider
      (codes "state")
      (codes "code")
      (at 200)
      state
      (complete_login digest same_text provider
        (codes "state")
        (codes "code")
        (codes "token")
        (codes "csrf")
        (at 200)
        3600
        state).1
      eve
complete_login-IsLogin_example =
    complete_login-IsLogin digest same_text provider (codes "state") (codes "code") (codes "token")
      (codes "csrf") (at 200) 3600 state eve_login eve_signs_in

abbrev ann_principal : Principal
ann_principal = principal_of password ann_identity

abbrev begun : AuthState
begun = (begin_broker_oauth digest 600 (codes "st") ann_principal (pos 9) (at 100) state).1

abbrev between : List (FlowCall BrokerOAuthFlow)
between =
    create (at 300) (flow_begun digest 600 (codes "other") ann_principal (pos 4) (at 300))
    ∷ consume (codes "x") (at 400)
    ∷ []

abbrev later : AuthState
later = record state {
  broker_flows = (run_flows state_hash expires_at between begun.broker_flows).1;
}

begins : (begin_broker_oauth digest 600 (codes "st") ann_principal (pos 9) (at 100) state).0 ≡ ok tt
unfolding begin_broker_oauth
begins = refl

st_kept : trim_space (codes "st") ≡ codes "st"
unfolding trim_space
st_kept = refl

between_leaves :
    LeavesFlow state_hash expires_at
      (flow_begun digest 600 (codes "st") ann_principal (pos 9) (at 100))
      between
unfolding stamp_le hash_token hex_encode
between_leaves = (refl, (refl, tt))

not_over : stamp_le (add_seconds (at 100) 600) (at 699) ≡ false
unfolding stamp_le
not_over = refl

broker_oauth_returns_example :
    let (r, s) = consume_broker_oauth digest ann_principal (codes "st") (at 699) later in
    (r ≡ (
      if eq_ℤ ann_principal.workspace_id ann_principal.workspace_id
        && eq_ℤ ann_principal.user_id ann_principal.user_id
      then ok (pos 9)
      else err (invalid "broker OAuth state does not belong to this session")))
    × ((consume_broker_oauth digest ann_principal (codes "st") (at 9000) s).0 ≡ err not_found)
broker_oauth_returns_example =
    broker_oauth_returns digest 600 (codes "st") ann_principal ann_principal (pos 9) (at 100)
      (at 699) (at 9000) between state later st_kept begins between_leaves refl not_over
