-- ===== src/Auth/Members.antt =====
-- The members of internal/store/auth.go. An operation is one transaction: its answer with the tables
-- left, or an error, after which the tables are as they were. `lower` is strings.ToLower, and
-- `db_lower` the database's LOWER.
pub mod Join
pub mod Password
pub mod Rows
pub mod Owner
pub mod Admitted
use traio.Prelude.{
  ℕ, suc, String, Bool, true, false, not, ◌&&◌, ◌||◌, List, [], ◌∷◌, ◌++◌, Option, none, some,
  Result, ok, err, ◌>>=◌, ◌>>◌, guard, ltb, leb, ◌==◌, str_eq, is_empty, length, any, if◌then◌else◌,
  ◌+◌,
}
use traio.Prelude.Int.{ℤ, pos, ltb_ℤ}
use traio.Text.{Text, text_eq, codes}
use traio.Text.Trim.{trim_space}
use traio.Activity.Types.{eq_ℤ}
use traio.Auth.Tables.{
  AuthUser, Workspace, MemberRow, WorkspaceInvite, AuthIdentity, PasswordCredential, CredentialRow,
  AuthSession, Directory, AuthError, not_found, no_rows, forbidden, invalid, WorkspaceMember,
}
use traio.Auth.Roles.{valid_role}

abbrev pub default_workspace : ℤ
default_workspace = pos 1

abbrev pub is_row : ℤ → ℤ → MemberRow → Bool
is_row w u m = eq_ℤ m.workspace_id w && eq_ℤ m.user_id u

-- `SELECT role FROM workspace_members WHERE workspace_id = ? AND user_id = ?`
unfoldable pub find_role : ℤ → ℤ → List MemberRow → Option String
find_role w u [] = none
find_role w u (m ∷ ms) = if is_row w u m then some m.role else find_role w u ms

abbrev pub is_owner : ℤ → MemberRow → Bool
is_owner w m = eq_ℤ m.workspace_id w && str_eq m.role "owner"

-- `SELECT COUNT(*) ... WHERE workspace_id = ? AND role = 'owner'`
unfoldable pub owners : ℤ → List MemberRow → ℕ
owners w [] = 0
owners w (m ∷ ms) = (if is_owner w m then 1 else 0) + owners w ms

unfoldable pub member_count : ℤ → List MemberRow → ℕ
member_count w [] = 0
member_count w (m ∷ ms) = (if eq_ℤ m.workspace_id w then 1 else 0) + member_count w ms

-- `UPDATE workspace_members SET role = ? WHERE workspace_id = ? AND user_id = ?`
unfoldable pub set_role : ℤ → ℤ → String → List MemberRow → List MemberRow
set_role w u role [] = []
set_role w u role (m ∷ ms) =
    (if is_row w u m then record m { role = role } else m) ∷ set_role w u role ms

unfoldable pub remove_row : ℤ → ℤ → List MemberRow → List MemberRow
remove_row w u [] = []
remove_row w u (m ∷ ms) = let rest = remove_row w u ms in if is_row w u m then rest else m ∷ rest

-- `INSERT ... ON CONFLICT(workspace_id, user_id) DO NOTHING`
unfoldable pub add_row : ℤ → ℤ → String → List MemberRow → List MemberRow
unfolding find_role
add_row w u role ms = elim (find_role w u ms) [
  | some r ↦ ms
  | none ↦ record { workspace_id = w; user_id = u; role = role } ∷ ms
]

abbrev pub retain_owner : String
retain_owner = "workspace must retain an owner"

-- The guard before an owner is demoted or deleted.
unfoldable pub keeps_owner : ℤ → String → String → List MemberRow → Bool
unfolding owners
keeps_owner w current role ms =
    not (str_eq current "owner" && not (str_eq role "owner")) || ltb 1 (owners w ms)

unfoldable pub update_found :
    ℤ → ℤ → String → Option String → Directory → Result AuthError Directory
unfolding keeps_owner set_role
update_found w u role none d = err not_found
update_found w u role (some current) d =
    if keeps_owner w current role d.members
    then ok (record d { members = set_role w u role d.members })
    else err (invalid retain_owner)

unfoldable pub update_workspace_member_role :
    ℤ → ℤ → String → Directory → Result AuthError Directory
unfolding update_found find_role
update_workspace_member_role w u role d =
    if valid_role role
    then update_found w u role (find_role w u d.members) d
    else err (invalid "invalid role")

-- `DELETE FROM auth_sessions WHERE workspace_id = ? AND user_id = ?`
unfoldable pub remove_sessions : ℤ → ℤ → List AuthSession → List AuthSession
remove_sessions w u [] = []
remove_sessions w u (s ∷ ss) =
    let rest = remove_sessions w u ss in
    if eq_ℤ s.workspace_id w && eq_ℤ s.user_id u then rest else s ∷ rest

unfoldable pub delete_found : ℤ → ℤ → Option String → Directory → Result AuthError Directory
unfolding keeps_owner remove_row remove_sessions
delete_found w u none d = err not_found
delete_found w u (some current) d =
    if keeps_owner w current "" d.members
    then ok
        (record d { members = remove_row w u d.members; sessions = remove_sessions w u d.sessions })
    else err (invalid retain_owner)

unfoldable pub delete_workspace_member : ℤ → ℤ → Directory → Result AuthError Directory
unfolding delete_found find_role
delete_workspace_member w u d = delete_found w u (find_role w u d.members) d
