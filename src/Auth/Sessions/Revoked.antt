-- ===== src/Auth/Sessions/Revoked.antt =====
-- What a change of the members means for the sessions that are open.
use traio.Prelude.{
  ℕ, ◌≡◌, sym, ap, ◌∙◌, String, List, none, some, ok, ok-eq, Bool-cases, Option-cases, inl, inr,
}
use traio.Prelude.Int.{ℤ}
use traio.Text.{Text}
use traio.Auth.Stamp.{Instant}
use traio.Auth.Tables.{AuthSession, Directory}
use traio.Auth.Roles.{valid_role}
use traio.Auth.Members.{
  find_role, keeps_owner, update_found, update_workspace_member_role, delete_found,
  delete_workspace_member,
}
use traio.Auth.Members.Rows.{find_role-set_role, find_role-remove_row}
use traio.Auth.Sessions.{Mode, Principal, authenticate}
use traio.Auth.Sessions.Laws.{authenticate_iff}

removed_role :
    (w u : ℤ) (d d' : Directory)
    → delete_workspace_member w u d ≡ ok d'
    → find_role w u d'.members ≡ none
unfolding delete_workspace_member delete_found
removed_role w u d d' h = elim (Option-cases (find_role w u d.members)) [
  | inl n ↦ absurd (cc (rw (delete_workspace_member, n) at h))
  | inr (current, f) ↦ elim (Bool-cases (keeps_owner w current "" d.members)) [
    | inr k ↦ absurd (cc (rw (delete_workspace_member, f, delete_found, k) at h))
    | inl k ↦
        ap (λ (x : Directory). find_role w u x.members)
          (sym (ok-eq (rw (delete_workspace_member, f, delete_found, k) at h)))
        ∙ find_role-remove_row w u d.members
  ]
]

updated_role :
    (w u : ℤ) (role : String) (d d' : Directory)
    → update_workspace_member_role w u role d ≡ ok d'
    → find_role w u d'.members ≡ some role
unfolding update_workspace_member_role update_found
updated_role w u role d d' h = elim (Bool-cases (valid_role role)) [
  | inr v ↦ absurd (cc (rw (update_workspace_member_role, v) at h))
  | inl v ↦ elim (Option-cases (find_role w u d.members)) [
    | inl n ↦ absurd (cc (rw (update_workspace_member_role, v, n) at h))
    | inr (current, f) ↦ elim (Bool-cases (keeps_owner w current role d.members)) [
      | inr k ↦ absurd (cc (rw (update_workspace_member_role, v, f, update_found, k) at h))
      | inl k ↦
          ap (λ (x : Directory). find_role w u x.members)
            (sym (ok-eq (rw (update_workspace_member_role, v, f, update_found, k) at h)))
          ∙ find_role-set_role w u role current d.members f
    ]
  ]
]

module _ (digest : Text → List ℕ) (mode : Mode) where
  -- Once a member has been deleted from a workspace, no token authenticates as a session of this user in
  -- this workspace, whenever that session began.
  pub deleted_member-IsLockedOut :
      (w u : ℤ) (d d' : Directory) (raw_token : Text) (now : Instant) (p : Principal)
      (s : AuthSession)
      → delete_workspace_member w u d ≡ ok d'
      → (authenticate digest mode raw_token now d').0 ≡ ok (p, s)
      → ¬ ((s.workspace_id ≡ w) × (s.user_id ≡ u))
  deleted_member-IsLockedOut w u d d' raw_token now p s h a (ew, eu) =
      let (t, f, l, (i, k, e)) = (authenticate_iff digest mode raw_token now d' p s).0 a in
      cc (k.role, ew, eu, removed_role w u d d' h)

  -- Once a member's role has been changed, every token of a session of this user in this workspace that
  -- still authenticates does so with the new role, whenever that session began.
  pub updated_member-HasRole :
      (w u : ℤ) (role : String) (d d' : Directory) (raw_token : Text) (now : Instant)
      (p : Principal) (s : AuthSession)
      → update_workspace_member_role w u role d ≡ ok d'
      → (authenticate digest mode raw_token now d').0 ≡ ok (p, s)
      → s.workspace_id ≡ w
      → s.user_id ≡ u
      → p.role ≡ role
  updated_member-HasRole w u role d d' raw_token now p s h a ew eu =
      let (t, f, l, (i, k, e)) = (authenticate_iff digest mode raw_token now d' p s).0 a in
      cc (k.role, ew, eu, e, updated_role w u role d d' h)
