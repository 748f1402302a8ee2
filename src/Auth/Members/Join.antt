-- ===== src/Auth/Members/Join.antt =====
-- Sign-in of internal/store/auth.go: an identity of a provider joins the default workspace
-- (UpsertOIDCIdentity), and the built-in account is set up (BootstrapPasswordIdentity). The row lock
-- that Postgres takes first is left out.
use traio.Prelude.{
  ℕ, String, Bool, not, ◌&&◌, ◌||◌, List, [], ◌∷◌, Option, none, some, Result, ok, err, ◌>>=◌, ◌>>◌,
  guard, ◌==◌, str_eq, is_empty, if◌then◌else◌, ◌+◌,
}
use traio.Prelude.Int.{ℤ, pos}
use traio.Text.{Text, text_eq}
use traio.Text.Trim.{trim_space}
use traio.Activity.Types.{eq_ℤ}
use traio.Auth.Tables.{
  AuthUser, Workspace, WorkspaceInvite, AuthIdentity, Directory, AuthError, no_rows, forbidden,
  invalid,
}
use traio.Auth.Members.{default_workspace, find_role, member_count, add_row}

abbrev is_subject : Text → Text → AuthUser → Bool
is_subject issuer subject u = text_eq u.issuer issuer && text_eq u.subject subject

-- `SELECT ... FROM users WHERE issuer = ? AND subject = ?`
unfoldable pub find_user : Text → Text → List AuthUser → Option AuthUser
find_user issuer subject [] = none
find_user issuer subject (u ∷ us) =
    if is_subject issuer subject u then some u else find_user issuer subject us

unfoldable pub find_workspace : ℤ → List Workspace → Option Workspace
find_workspace w [] = none
find_workspace w (x ∷ xs) = if eq_ℤ x.id w then some x else find_workspace w xs

unfoldable pub rename_users : Text → Text → Text → Text → List AuthUser → List AuthUser
rename_users issuer subject email name [] = []
rename_users issuer subject email name (u ∷ us) =
    (if is_subject issuer subject u then record u { email = email; name = name } else u)
    ∷ rename_users issuer subject email name us

abbrev new_user : ℕ → Text → Text → Text → Text → AuthUser
new_user n issuer subject email name = record {
  id = pos n;
  email = email;
  name = name;
  issuer = issuer;
  subject = subject;
}

-- `INSERT INTO users ... ON CONFLICT(issuer, subject) DO UPDATE SET email, name`
unfoldable pub upsert_user : Text → Text → Text → Text → Directory → Directory
unfolding find_user rename_users
upsert_user issuer subject email name d = elim (find_user issuer subject d.users) [
  | some u ↦ record d { users = rename_users issuer subject email name d.users }
  | none ↦ record d {
    users = new_user d.next_user issuer subject email name ∷ d.users;
    next_user = d.next_user + 1;
  }
]

-- `QueryRowContext(...).Scan(...)`, where no row is an error.
abbrev pub one_row {ℓ} : {A : Type ℓ} → Option A → Result AuthError A
one_row none = err no_rows
one_row (some a) = ok a

-- `SELECT role FROM workspace_invites WHERE workspace_id = ? AND LOWER(email) = LOWER(?)`
unfoldable pub is_invite : (Text → Text) → ℤ → Text → WorkspaceInvite → Bool
is_invite db_lower w email i = eq_ℤ i.workspace_id w && text_eq (db_lower i.email) (db_lower email)

unfoldable pub find_invite : (Text → Text) → ℤ → Text → List WorkspaceInvite → Option String
unfolding is_invite
find_invite db_lower w email [] = none
find_invite db_lower w email (i ∷ is) =
    if is_invite db_lower w email i then some i.role else find_invite db_lower w email is

unfoldable pub remove_invites :
    (Text → Text) → ℤ → Text → List WorkspaceInvite → List WorkspaceInvite
unfolding is_invite
remove_invites db_lower w email [] = []
remove_invites db_lower w email (i ∷ is) =
    let rest = remove_invites db_lower w email is in
    if is_invite db_lower w email i then rest else i ∷ rest

abbrev pub invited : Option String → Result AuthError String
invited none = err (forbidden "user is not invited to this workspace")
invited (some role) = ok role

-- The role of an identity without a membership.
unfoldable pub new_role : (Text → Text) → Text → Directory → Result AuthError String
unfolding member_count find_invite trim_space
new_role db_lower email d =
    if member_count default_workspace d.members == 0
    then ok "owner"
    else if is_empty (trim_space email)
    then err (forbidden "identity has no invited email")
    else invited (find_invite db_lower default_workspace email d.invites)

-- The end of a sign-in: the role and the workspace that the member's row joins.
unfoldable pub join_identity : AuthUser → Directory → Result AuthError (AuthIdentity × Directory)
unfolding find_role find_workspace
join_identity u d = do
  role ← one_row (find_role default_workspace u.id d.members)
  workspace ← one_row (find_workspace default_workspace d.workspaces)
  ok (record { user = u; workspace = workspace; role = role }, d)

-- A first sign-in adds the membership, and an invitation is used up.
unfoldable pub enter : (Text → Text) → Text → AuthUser → String → Directory → Directory
unfolding add_row remove_invites
enter db_lower email u role d = record d {
  members = add_row default_workspace u.id role d.members;
  invites =
      if str_eq role "owner"
      then d.invites
      else remove_invites db_lower default_workspace email d.invites;
}

unfoldable pub sign_in :
    (Text → Text)
    → Text
    → AuthUser
    → Option String
    → Directory
    → Result AuthError (AuthIdentity × Directory)
unfolding new_role enter join_identity
sign_in db_lower email u (some role) d = join_identity u d
sign_in db_lower email u none d = do
  role ← new_role db_lower email d
  join_identity u (enter db_lower email u role d)

unfoldable pub upsert_oidc_identity :
    (Text → Text)
    → Text
    → Text
    → Text
    → Text
    → Directory
    → Result AuthError (AuthIdentity × Directory)
unfolding upsert_user find_user sign_in find_role trim_space
upsert_oidc_identity db_lower issuer subject email name d = do
  guard (not (is_empty (trim_space issuer) || is_empty (trim_space subject)))
      (invalid "issuer and subject are required")
  let d' =
      upsert_user (trim_space issuer) (trim_space subject) (trim_space email) (trim_space name) d
  u ← one_row (find_user (trim_space issuer) (trim_space subject) d'.users)
  sign_in db_lower email u (find_role default_workspace u.id d'.members) d'
