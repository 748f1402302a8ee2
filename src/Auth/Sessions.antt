-- ===== src/Auth/Sessions.antt =====
-- Sessions: internal/store/auth.go (CreateAuthSession, GetAuthSession, TouchAuthSession,
-- DeleteAuthSession) and internal/auth/auth.go (createLoginSession, Authenticate, ValidateCSRF,
-- Logout). `digest` is sha256.Sum256, and the random tokens are arguments. An operation reads the
-- clock once.
pub mod Laws
pub mod Revoked
pub mod Login
use traio.Prelude.{
  ℕ, ◌≡◌, String, Bool, true, false, not, ◌&&◌, ◌||◌, List, [], ◌∷◌, Option, none, some, Result, ok,
  err, ◌>>=◌, str_eq, is_empty, if◌then◌else◌,
}
use traio.Prelude.Int.{ℤ}
use traio.Text.{Text, text_eq}
use traio.Text.Trim.{trim_space}
use traio.Text.Hex.{hex_encode, hex_decode}
use traio.Auth.Stamp.{Instant, stamp_le, is_after, add_seconds}
use traio.Auth.Tables.{AuthSession, AuthIdentity, Directory, AuthError, not_found, duplicate_key}
use traio.Auth.Members.{find_role}
use traio.Auth.Members.Join.{find_workspace}
use traio.Auth.Members.Password.{find_user_id}

unfoldable pub find_session : Text → List AuthSession → Option AuthSession
find_session h [] = none
find_session h (s ∷ ss) = if text_eq s.token_hash h then some s else find_session h ss

unfoldable pub drop_expired_sessions : Instant → List AuthSession → List AuthSession
drop_expired_sessions now [] = []
drop_expired_sessions now (s ∷ ss) =
    let rest = drop_expired_sessions now ss in if stamp_le s.expires_at now then rest else s ∷ rest

-- `CreateAuthSession`: two statements, so that a refused insertion leaves the expired rows deleted.
unfoldable pub insert_session :
    AuthSession
    → Option AuthSession
    → List AuthSession
    → Result AuthError (Unit {0}) × List AuthSession
insert_session s (some t) ss = (err duplicate_key, ss)
insert_session s none ss = (ok tt, s ∷ ss)

unfoldable pub create_auth_session :
    Instant → AuthSession → List AuthSession → Result AuthError (Unit {0}) × List AuthSession
unfolding find_session drop_expired_sessions insert_session
create_auth_session now s ss =
    insert_session s (find_session s.token_hash (drop_expired_sessions now ss))
      (drop_expired_sessions now ss)

abbrev or_not_found {ℓ} : {A : Type ℓ} → Option A → Result AuthError A
or_not_found none = err not_found
or_not_found (some a) = ok a

-- `GetAuthSession`: the session's row with its user, its workspace and the member's row.
unfoldable pub get_auth_session : Text → Directory → Result AuthError (AuthIdentity × AuthSession)
unfolding find_session find_user_id find_workspace find_role
get_auth_session h d = do
  s ← or_not_found (find_session h d.sessions)
  u ← or_not_found (find_user_id s.user_id d.users)
  workspace ← or_not_found (find_workspace s.workspace_id d.workspaces)
  role ← or_not_found (find_role s.workspace_id s.user_id d.members)
  ok (record { user = u; workspace = workspace; role = role }, s)

-- `TouchAuthSession`
unfoldable pub touch_auth_session : Text → Instant → List AuthSession → List AuthSession
touch_auth_session h now [] = []
touch_auth_session h now (s ∷ ss) =
    (if text_eq s.token_hash h then record s { last_seen_at = now } else s)
    ∷ touch_auth_session h now ss

-- `DeleteAuthSession`
unfoldable pub delete_auth_session : Text → List AuthSession → List AuthSession
delete_auth_session h [] = []
delete_auth_session h (s ∷ ss) =
    let rest = delete_auth_session h ss in if text_eq s.token_hash h then rest else s ∷ rest

pub data Mode : Type 0 where
  local oidc password disabled_dev : Mode

pub record Principal : Type 0 where
  pub user_id : ℤ
  pub workspace_id : ℤ
  pub email : Text
  pub name : Text
  pub role : String
  pub source : Mode

pub record LoginResult : Type 0 where
  pub identity : AuthIdentity
  pub session_token : Text
  pub csrf_token : Text
  pub expires_at : Instant

-- The principal of a session that is not over.
abbrev pub principal_of : Mode → AuthIdentity → Principal
principal_of mode i = record {
  user_id = i.user.id;
  workspace_id = i.workspace.id;
  email = i.user.email;
  name = i.user.name;
  role = i.role;
  source = mode;
}

module _ (digest : Text → List ℕ) where
  -- `hashToken`
  unfoldable pub hash_token : Text → Text
  hash_token token = hex_encode (digest token)

  abbrev pub new_session : Text → Text → Instant → ℕ → AuthIdentity → AuthSession
  new_session session_token csrf_token now ttl i = record {
    token_hash = hash_token session_token;
    csrf_token_hash = hash_token csrf_token;
    user_id = i.user.id;
    workspace_id = i.workspace.id;
    expires_at = add_seconds now ttl;
    last_seen_at = now;
  }

  abbrev pub login_result :
      Text
      → Text
      → Instant
      → ℕ
      → AuthIdentity
      → Result AuthError (Unit {0})
      → Result AuthError LoginResult
  login_result session_token csrf_token now ttl i (err reason) = err reason
  login_result session_token csrf_token now ttl i (ok t) = ok (record {
    identity = i;
    session_token = session_token;
    csrf_token = csrf_token;
    expires_at = add_seconds now ttl;
  })

  -- `createLoginSession`, for a lifetime of whole seconds; the address to return to is left out.
  unfoldable pub create_login_session :
      Text
      → Text
      → Instant
      → ℕ
      → AuthIdentity
      → Directory
      → Result AuthError LoginResult × Directory
  unfolding create_auth_session
  create_login_session session_token csrf_token now ttl i d =
      let (r, ss) =
        create_auth_session now (new_session session_token csrf_token now ttl i) d.sessions in
      (login_result session_token csrf_token now ttl i r, record d { sessions = ss })

  -- A session that is over is deleted; another is marked as seen.
  unfoldable pub check_session :
      Mode
      → Instant
      → Result AuthError (AuthIdentity × AuthSession)
      → Directory
      → Result AuthError (Principal × AuthSession) × Directory
  unfolding delete_auth_session touch_auth_session
  check_session mode now (err reason) d = (err reason, d)
  check_session mode now (ok (i, s)) d =
      if not (is_after s.expires_at now)
      then (err not_found, record d { sessions = delete_auth_session s.token_hash d.sessions })
      else (
        ok (principal_of mode i, s),
        record d { sessions = touch_auth_session s.token_hash now d.sessions },
      )

  -- `Authenticate`
  unfoldable pub authenticate :
      Mode → Text → Instant → Directory → Result AuthError (Principal × AuthSession) × Directory
  unfolding check_session get_auth_session hash_token trim_space
  authenticate mode raw_token now d =
      if is_empty (trim_space raw_token)
      then (err not_found, d)
      else check_session mode now (get_auth_session (hash_token raw_token) d) d

  abbrev same_bytes : Option (List ℕ) → Option (List ℕ) → Bool
  same_bytes (some left) (some right) = text_eq left right
  same_bytes left right = false

  -- `ValidateCSRF`
  unfoldable pub validate_csrf : AuthSession → Text → Bool
  unfolding hash_token hex_decode
  validate_csrf s raw_token =
      same_bytes (hex_decode s.csrf_token_hash) (hex_decode (hash_token raw_token))

  -- `Logout`
  unfoldable pub logout : Text → Directory → Directory
  unfolding delete_auth_session hash_token
  logout raw_token d =
      if is_empty raw_token
      then d
      else record d { sessions = delete_auth_session (hash_token raw_token) d.sessions }
