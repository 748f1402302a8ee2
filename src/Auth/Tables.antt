-- ===== src/Auth/Tables.antt =====
-- The rows of the tables of internal/store/auth.go.
use traio.Prelude.{ℕ, String, List}
use traio.Prelude.Int.{ℤ}
use traio.Text.{Text}
use traio.Auth.Stamp.{Instant}

pub record AuthUser : Type 0 where
  pub id : ℤ
  pub email : Text
  pub name : Text
  pub issuer : Text
  pub subject : Text

pub record Workspace : Type 0 where
  pub id : ℤ
  pub name : String
  pub slug : String

-- A row of `workspace_members`; WorkspaceMember also carries the user's email and name.
pub record MemberRow : Type 0 where
  pub workspace_id : ℤ
  pub user_id : ℤ
  pub role : String

pub record WorkspaceMember : Type 0 where
  pub user_id : ℤ
  pub workspace_id : ℤ
  pub email : Text
  pub name : Text
  pub role : String

pub record WorkspaceInvite : Type 0 where
  pub workspace_id : ℤ
  pub email : Text
  pub role : String
  pub invited_by : ℤ

pub record AuthIdentity : Type 0 where
  pub user : AuthUser
  pub workspace : Workspace
  pub role : String

pub record PasswordCredential : Type 0 where
  pub username : Text
  pub password_hash : String
  pub email : Text
  pub name : Text

-- A row of `password_credentials`.
pub record CredentialRow : Type 0 where
  pub user_id : ℤ
  pub username : Text
  pub password_hash : String

-- A hash is its text in hexadecimal digits.
pub record AuthSession : Type 0 where
  pub token_hash : Text
  pub csrf_token_hash : Text
  pub user_id : ℤ
  pub workspace_id : ℤ
  pub expires_at : Instant
  pub last_seen_at : Instant

pub record AuthFlow : Type 0 where
  pub state_hash : Text
  pub code_verifier : String
  pub nonce : String
  pub return_to : Text
  pub expires_at : Instant

pub record BrokerOAuthFlow : Type 0 where
  pub state_hash : Text
  pub connection_id : ℤ
  pub workspace_id : ℤ
  pub user_id : ℤ
  pub expires_at : Instant

-- The tables of users and members; `next_user` is the next id that the database gives.
pub record Directory : Type 0 where
  pub workspaces : List Workspace
  pub users : List AuthUser
  pub next_user : ℕ
  pub credentials : List CredentialRow
  pub members : List MemberRow
  pub invites : List WorkspaceInvite
  pub sessions : List AuthSession

pub data AuthError : Type 0 where
  not_found expired no_rows duplicate_key : AuthError
  forbidden : String → AuthError
  invalid : String → AuthError
