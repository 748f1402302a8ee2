-- ===== src/Auth/Login.antt =====
-- internal/auth/auth.go: signing in, by a provider or with the built-in account, and the authorization
-- of a broker's connection. A provider (the exchange of a code, the check of an ID token, its claims) is
-- a parameter, as are `digest`, sha256.Sum256, and url.Parse. The random state, nonce, verifier and
-- tokens are arguments. The text that wraps an error is left out.
pub mod Proven
pub mod Broker
use traio.Prelude.{
  ℕ, ◌≡◌, String, Bool, true, false, not, ◌&&◌, ◌||◌, List, [], ◌∷◌, Option, none, some, Result, ok,
  err, ◌>>=◌, ◌>>◌, guard, leb, ltb, ◌==◌, str_eq, is_empty, any, if◌then◌else◌,
}
use traio.Prelude.Int.{ℤ, pos, ltb_ℤ}
use traio.Text.{Text, text_eq, codes, utf8_length, is_digit}
use traio.Text.Trim.{trim_space}
use traio.Activity.Types.{eq_ℤ}
use traio.Auth.Stamp.{Instant, add_seconds}
use traio.Auth.Tables.{
  AuthFlow, BrokerOAuthFlow, AuthIdentity, Directory, AuthError, not_found, invalid,
}
use traio.Auth.Flows.{
  create_auth_flow, consume_auth_flow, create_broker_oauth_flow, consume_broker_oauth_flow,
}
use traio.Auth.Members.Join.{upsert_oidc_identity}
use traio.Auth.Members.Password.{get_password_identity}
use traio.Auth.Sessions.{Principal, LoginResult, hash_token, create_login_session}

-- The tables that the service works on.
pub record AuthState : Type 0 where
  pub directory : Directory
  pub auth_flows : List AuthFlow
  pub broker_flows : List BrokerOAuthFlow

pub record Claims : Type 0 where
  pub subject : Text
  pub email : Text
  pub email_verified : Bool
  pub name : Text
  pub nonce : String

-- What the packages oauth2 and oidc answer. `exchange` has `none` where the answer has no ID token.
pub record Provider : Type 0 where
  pub exchange : Text → String → Result AuthError (Option Text)
  pub verify : Text → Result AuthError Text
  pub claims : Text → Result AuthError Claims

-- What `url.Parse` answers of an address.
pub record Url : Type 0 where
  pub is_absolute : Bool
  pub host : Text
  pub path : Text
  pub request_uri : Text

abbrev has_prefix : Text → Text → Bool
has_prefix s [] = true
has_prefix [] (y ∷ ys) = false
has_prefix (x ∷ s) (y ∷ ys) = x == y && has_prefix s ys

abbrev local_part : Option Url → Text
local_part none = codes "/"
local_part (some u) =
    if u.is_absolute
      || not (is_empty u.host)
      || not (has_prefix u.path (codes "/"))
      || has_prefix u.path (codes "//")
    then codes "/"
    else u.request_uri

-- `safeReturnTo`
unfoldable pub safe_return_to : (Text → Option Url) → Text → Text
unfolding trim_space
safe_return_to parse value = local_part (parse (trim_space value))

-- The name's characters: a lower-case letter or a digit, and later also one of ". _ @ -".
abbrev is_name_start : ℕ → Bool
is_name_start c = leb b'a' c && leb c b'z' || is_digit c

abbrev is_username : Text → Bool
is_username [] = false
is_username (c ∷ s) =
    is_name_start c
    && not (any (λ d. not (is_name_start d || d == b'.' || d == b'_' || d == b'@' || d == b'-')) s)

-- `validateBootstrapCredential`
unfoldable pub validate_bootstrap_credential : Text → Text → Result AuthError (Unit {0})
validate_bootstrap_credential username password = do
  guard
      (not (
        ltb (utf8_length username) 3
        || ltb 64 (utf8_length username)
        || not (is_username username)))
      (invalid "username")
  guard (not (ltb (utf8_length password) 12)) (invalid "password is short")
  guard (not (ltb 1024 (utf8_length password))) (invalid "password is long")

-- An ID token that is present.
abbrev pub id_token : Option Text → Result AuthError Text
id_token (some (c ∷ t)) = ok (c ∷ t)
id_token _ = err (invalid "OIDC response did not include an ID token")

-- From the code to the verified claims.
unfoldable pub identify : Provider → Text → AuthFlow → Result AuthError (Text × Claims)
unfolding trim_space
identify provider code flow = do
  token ← provider.exchange code flow.code_verifier
  raw_token ← id_token token
  issuer ← provider.verify raw_token
  claims ← provider.claims raw_token
  guard (str_eq claims.nonce flow.nonce) (invalid "OIDC nonce mismatch")
  guard (not (is_empty (trim_space claims.email) || not claims.email_verified))
      (invalid "OIDC identity must include a verified email")
  ok (issuer, claims)

-- `verify_password` is verifyPassword of password.go, over argon2.
abbrev credential_check :
    (String → Text → Bool)
    → Text
    → Result AuthError (AuthIdentity × String)
    → Result AuthError AuthIdentity
credential_check verify_password password (ok (i, hash)) =
    if verify_password hash password then ok i else err (invalid "invalid username or password")
credential_check verify_password password (err not_found) =
    err (invalid "invalid username or password")
credential_check verify_password password (err reason) = err reason

abbrev same_directory :
    AuthState → Result AuthError AuthIdentity → Result AuthError (AuthIdentity × Directory)
same_directory s (ok i) = ok (i, s.directory)
same_directory s (err reason) = err reason

abbrev pub own_connection : Principal → Result AuthError BrokerOAuthFlow → Result AuthError ℤ
own_connection p (err reason) = err reason
own_connection p (ok f) =
    if not (eq_ℤ f.workspace_id p.workspace_id) || not (eq_ℤ f.user_id p.user_id)
    then err (invalid "broker OAuth state does not belong to this session")
    else ok f.connection_id

module _ (digest : Text → List ℕ) where
  -- The row of `BeginLogin`, from the random state, nonce and verifier.
  unfoldable pub begin_login :
      (Text → Option Url)
      → ℕ
      → Text
      → String
      → String
      → Text
      → Instant
      → AuthState
      → Result AuthError (Unit {0}) × AuthState
  unfolding create_auth_flow safe_return_to hash_token
  begin_login parse ttl state nonce verifier return_to now s =
      let (r, fs) =
        create_auth_flow now
          (record {
            state_hash = hash_token digest state;
            code_verifier = verifier;
            nonce = nonce;
            return_to = safe_return_to parse return_to;
            expires_at = add_seconds now ttl;
          })
          s.auth_flows in
      (r, record s { auth_flows = fs })

  unfoldable pub start_session :
      Text
      → Text
      → Instant
      → ℕ
      → Result AuthError (AuthIdentity × Directory)
      → AuthState
      → Result AuthError LoginResult × AuthState
  unfolding create_login_session
  start_session session_token csrf_token now ttl (err reason) s = (err reason, s)
  start_session session_token csrf_token now ttl (ok (i, d)) s =
      let (r, d') = create_login_session digest session_token csrf_token now ttl i d in
      (r, record s { directory = d' })

  unfoldable pub sign_in_as :
      (Text → Text)
      → Text
      → Text
      → Instant
      → ℕ
      → Result AuthError (Text × Claims)
      → AuthState
      → Result AuthError LoginResult × AuthState
  unfolding upsert_oidc_identity start_session
  sign_in_as db_lower session_token csrf_token now ttl (err reason) s = (err reason, s)
  sign_in_as db_lower session_token csrf_token now ttl (ok (issuer, c)) s =
      start_session session_token csrf_token now ttl
        (upsert_oidc_identity db_lower issuer c.subject c.email c.name s.directory) s

  -- Once the flow is taken it is gone, whatever comes of the rest.
  unfoldable pub with_flow :
      (Text → Text)
      → Provider
      → Text
      → Text
      → Text
      → Instant
      → ℕ
      → Result AuthError AuthFlow
      → AuthState
      → Result AuthError LoginResult × AuthState
  unfolding identify sign_in_as
  with_flow db_lower provider code session_token csrf_token now ttl (err reason) s = (err reason, s)
  with_flow db_lower provider code session_token csrf_token now ttl (ok flow) s =
      sign_in_as db_lower session_token csrf_token now ttl (identify provider code flow) s

  -- `CompleteLogin`, without the address to return to.
  unfoldable pub complete_login :
      (Text → Text)
      → Provider
      → Text
      → Text
      → Text
      → Text
      → Instant
      → ℕ
      → AuthState
      → Result AuthError LoginResult × AuthState
  unfolding consume_auth_flow with_flow hash_token trim_space
  complete_login db_lower provider state code session_token csrf_token now ttl s =
      if is_empty (trim_space state) || is_empty (trim_space code)
      then (err (invalid "OIDC state and code are required"), s)
      else let (r, fs) =
          consume_auth_flow (hash_token digest (trim_space state)) now s.auth_flows in
        with_flow db_lower provider (trim_space code) session_token csrf_token now ttl r
          (record s { auth_flows = fs })

  -- `LoginWithPassword`
  unfoldable pub login_with_password :
      (Text → Text)
      → (String → Text → Bool)
      → Text
      → Text
      → Text
      → Text
      → Instant
      → ℕ
      → AuthState
      → Result AuthError LoginResult × AuthState
  unfolding get_password_identity start_session trim_space
  login_with_password lower verify_password username password session_token csrf_token now ttl s =
      start_session session_token csrf_token now ttl
        (same_directory s (
          credential_check verify_password password
            (get_password_identity lower (lower (trim_space username)) s.directory)))
        s

  -- `BeginBrokerOAuth`
  unfoldable pub begin_broker_oauth :
      ℕ → Text → Principal → ℤ → Instant → AuthState → Result AuthError (Unit {0}) × AuthState
  unfolding create_broker_oauth_flow hash_token
  begin_broker_oauth ttl state p connection now s =
      if not (ltb_ℤ (pos 0) p.user_id)
        || not (ltb_ℤ (pos 0) p.workspace_id)
        || not (ltb_ℤ (pos 0) connection)
      then (err (invalid "authenticated broker OAuth context is required"), s)
      else let (r, fs) =
          create_broker_oauth_flow now
            (record {
              state_hash = hash_token digest state;
              connection_id = connection;
              workspace_id = p.workspace_id;
              user_id = p.user_id;
              expires_at = add_seconds now ttl;
            })
            s.broker_flows in
        (r, record s { broker_flows = fs })

  -- `ConsumeBrokerOAuth`
  unfoldable pub consume_broker_oauth :
      Principal → Text → Instant → AuthState → Result AuthError ℤ × AuthState
  unfolding consume_broker_oauth_flow hash_token trim_space
  consume_broker_oauth p raw_state now s =
      let (r, fs) =
        consume_broker_oauth_flow (hash_token digest (trim_space raw_state)) now s.broker_flows in
      (own_connection p r, record s { broker_flows = fs })
