-- ===== src/Auth/Members/Password.antt =====
-- The built-in account of internal/store/auth.go, the invitations, and the list of members.
use traio.Prelude.{
  String, Bool, true, false, not, ◌&&◌, ◌||◌, List, [], ◌∷◌, Option, none, some, Result, ok, err,
  ◌>>=◌, ◌==◌, str_eq, is_empty, any, if◌then◌else◌,
}
use traio.Prelude.Int.{ℤ, pos, ltb_ℤ}
use traio.Text.{Text, text_eq, text_lt, codes}
use traio.Text.Trim.{trim_space}
use traio.Activity.Types.{eq_ℤ}
use traio.Auth.Tables.{
  AuthUser, MemberRow, WorkspaceMember, WorkspaceInvite, AuthIdentity, PasswordCredential,
  CredentialRow, Directory, AuthError, not_found, no_rows, invalid,
}
use traio.Auth.Members.{default_workspace, find_role, set_role}
use traio.Auth.Members.Join.{find_user, find_workspace, upsert_user, one_row}

unfoldable pub find_credential : Text → List CredentialRow → Option CredentialRow
find_credential username [] = none
find_credential username (c ∷ cs) =
    if text_eq c.username username then some c else find_credential username cs

unfoldable pub find_user_id : ℤ → List AuthUser → Option AuthUser
find_user_id i [] = none
find_user_id i (u ∷ us) = if eq_ℤ u.id i then some u else find_user_id i us

-- `passwordIdentityFromQuery`: the credential of a name, joined with its user, member and workspace.
unfoldable pub password_identity : Text → Directory → Result AuthError (AuthIdentity × String)
unfolding find_credential find_user_id find_role find_workspace
password_identity username d = do
  c ← one_row (find_credential username d.credentials)
  u ← one_row (find_user_id c.user_id d.users)
  role ← one_row (find_role default_workspace u.id d.members)
  workspace ← one_row (find_workspace default_workspace d.workspaces)
  ok (record { user = u; workspace = workspace; role = role }, c.password_hash)

abbrev pub no_rows_as {ℓ} : {A : Type ℓ} → AuthError → Result AuthError A → Result AuthError A
no_rows_as reason (err no_rows) = err reason
no_rows_as reason r = r

-- `GetPasswordIdentity`
unfoldable pub get_password_identity :
    (Text → Text) → Text → Directory → Result AuthError (AuthIdentity × String)
unfolding password_identity trim_space
get_password_identity lower username d =
    no_rows_as not_found (password_identity (lower (trim_space username)) d)

abbrev pub has_password_identity : Directory → Bool
has_password_identity d = not (is_empty d.credentials)

-- `INSERT ... ON CONFLICT(workspace_id, user_id) DO UPDATE SET role = 'owner'`
unfoldable pub put_owner : ℤ → ℤ → List MemberRow → List MemberRow
unfolding find_role set_role
put_owner w u ms = elim (find_role w u ms) [
  | some r ↦ set_role w u "owner" ms
  | none ↦ record { workspace_id = w; user_id = u; role = "owner" } ∷ ms
]

abbrev pub different_username : String
different_username = "built-in account is already initialized with a different username"

abbrev pub password_issuer : Text
password_issuer = codes "traio:password"

abbrev pub normalized : (Text → Text) → PasswordCredential → PasswordCredential
normalized lower c = record c {
  username = lower (trim_space c.username);
  email = lower (trim_space c.email);
  name = trim_space c.name;
}

-- The first account: the user, the credential and the owner's row.
unfoldable pub add_owner : PasswordCredential → ℤ → Directory → Directory
unfolding put_owner
add_owner c u d = record d {
  credentials =
      record { user_id = u; username = c.username; password_hash = c.password_hash }
      ∷ d.credentials;
  members = put_owner default_workspace u d.members;
}

unfoldable pub first_account :
    PasswordCredential → Directory → Result AuthError ((AuthIdentity × Bool) × Directory)
unfolding upsert_user find_user add_owner password_identity
first_account c d = do
  let d' = upsert_user password_issuer c.username c.email c.name d
  u ← one_row (find_user password_issuer c.username d'.users)
  (identity, hash) ← password_identity c.username (add_owner c u.id d')
  ok ((identity, true), add_owner c u.id d')

unfoldable pub same_account :
    PasswordCredential → Directory → Result AuthError ((AuthIdentity × Bool) × Directory)
unfolding password_identity
same_account c d = do
  (identity, hash) ← no_rows_as (invalid different_username) (password_identity c.username d)
  ok ((identity, false), d)

-- `BootstrapPasswordIdentity`; the answer's Boolean says whether the account is new.
unfoldable pub bootstrap_password_identity :
    (Text → Text)
    → PasswordCredential
    → Directory
    → Result AuthError ((AuthIdentity × Bool) × Directory)
unfolding first_account same_account trim_space
bootstrap_password_identity lower credential d =
    let c = normalized lower credential in
    if is_empty c.username || str_eq c.password_hash ""
    then err (invalid "username and password hash are required")
    else if is_empty d.credentials
    then first_account c d
    else same_account c d

-- The roles of invitations.
unfoldable pub invite_role : Text → Option String
invite_role r =
    if text_eq r (codes "admin")
    then some "admin"
    else if text_eq r (codes "member")
    then some "member"
    else if text_eq r (codes "viewer")
    then some "viewer"
    else none

-- `INSERT INTO workspace_invites ... ON CONFLICT(workspace_id, email) DO UPDATE SET role, invited_by`
unfoldable pub put_invite : WorkspaceInvite → List WorkspaceInvite → List WorkspaceInvite
put_invite i [] = i ∷ []
put_invite i (j ∷ js) =
    if eq_ℤ j.workspace_id i.workspace_id && text_eq j.email i.email
    then record j { role = i.role; invited_by = i.invited_by } ∷ js
    else j ∷ put_invite i js

unfoldable pub invite_as : ℤ → Text → ℤ → Option String → Directory → Result AuthError Directory
unfolding put_invite
invite_as workspace address inviter none d =
    err (invalid "invite role must be admin, member, or viewer")
invite_as workspace address inviter (some role) d = ok (record d {
  invites =
      put_invite
        (record { workspace_id = workspace; email = address; role = role; invited_by = inviter })
        d.invites;
})

unfoldable pub lacks_address : ℤ → ℤ → Text → Bool
lacks_address workspace inviter address =
    not (ltb_ℤ (pos 0) workspace)
    || not (ltb_ℤ (pos 0) inviter)
    || is_empty address
    || not (any (λ c. c == b'@') address)

-- `InviteWorkspaceMember`
unfoldable pub invite_workspace_member :
    (Text → Text) → ℤ → Text → Text → ℤ → Directory → Result AuthError Directory
unfolding lacks_address invite_role invite_as trim_space
invite_workspace_member lower workspace email role inviter d =
    let address = lower (trim_space email) in
    if lacks_address workspace inviter address
    then err (invalid "valid workspace, inviter, and email are required")
    else invite_as workspace address inviter (invite_role (lower (trim_space role))) d

abbrev before : WorkspaceMember → WorkspaceMember → Bool
before a b = text_lt a.email b.email || text_eq a.email b.email && not (ltb_ℤ b.user_id a.user_id)

insert_member : WorkspaceMember → List WorkspaceMember → List WorkspaceMember
insert_member m [] = m ∷ []
insert_member m (n ∷ ns) = if before m n then m ∷ n ∷ ns else n ∷ insert_member m ns

abbrev listed : ℤ → MemberRow → Option AuthUser → List WorkspaceMember → List WorkspaceMember
listed w m none ms = ms
listed w m (some u) ms =
    if eq_ℤ m.workspace_id w
    then insert_member
        (record {
          user_id = m.user_id;
          workspace_id = m.workspace_id;
          email = u.email;
          name = u.name;
          role = m.role;
        })
        ms
    else ms

-- `ListWorkspaceMembers`, ordered by email and id; emails in the order of their code points, as SQLite has it.
unfoldable pub list_members : ℤ → List AuthUser → List MemberRow → List WorkspaceMember
unfolding insert_member find_user_id
list_members w us [] = []
list_members w us (m ∷ ms) = listed w m (find_user_id m.user_id us) (list_members w us ms)
