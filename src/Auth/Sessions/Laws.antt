-- ===== src/Auth/Sessions/Laws.antt =====
-- Who a session's token stands for.
use traio.Prelude.{
  ℕ, ◌≡◌, ◌↔◌, refl, sym, ap, ◌∙◌, true, false, List, Option, none, some, ok, >>=-eq-ok, ok-eq,
  is_empty, Bool-cases, Result-cases, inl, inr,
}
use traio.Text.{Text}
use traio.Text.Trim.{trim_space}
use traio.Auth.Stamp.{Instant, is_after}
use traio.Auth.Tables.{AuthSession, AuthIdentity, Directory}
use traio.Auth.Members.{find_role}
use traio.Auth.Members.Join.{find_workspace}
use traio.Auth.Members.Password.{find_user_id}
use traio.Auth.Sessions.{
  find_session, or_not_found, get_auth_session, Mode, Principal, principal_of, hash_token,
  check_session, authenticate,
}

-- The user, the workspace and the role that the tables have for a session.
pub record IsIdentity (d : Directory) (s : AuthSession) (i : AuthIdentity) : Type 0 where
  pub user : find_user_id s.user_id d.users ≡ some i.user
  pub workspace : find_workspace s.workspace_id d.workspaces ≡ some i.workspace
  pub role : find_role s.workspace_id s.user_id d.members ≡ some i.role

or_not_found-eq {ℓ} : {A : Type ℓ} (o : Option A) {a : A} → or_not_found o ≡ ok a → o ≡ some a
or_not_found-eq none h = cc
or_not_found-eq (some b) h = cc

get_auth_session_lem :
    (h : Text) (d : Directory) (i : AuthIdentity) (s : AuthSession)
    → get_auth_session h d ≡ ok (i, s)
    → (find_session h d.sessions ≡ some s) × IsIdentity d s i
unfolding get_auth_session
get_auth_session_lem h d i s e =
    let (t, e1, k1) = >>=-eq-ok (or_not_found (find_session h d.sessions)) _ e in
    let (u, e2, k2) = >>=-eq-ok (or_not_found (find_user_id t.user_id d.users)) _ k1 in
    let (w, e3, k3) = >>=-eq-ok (or_not_found (find_workspace t.workspace_id d.workspaces)) _ k2 in
    let (r, e4, k4) =
      >>=-eq-ok (or_not_found (find_role t.workspace_id t.user_id d.members)) _ k3 in
    let same : t ≡ s = ap (λ (x : AuthIdentity × AuthSession). x.1) (ok-eq k4) in
    let uu : u ≡ i.user = ap (λ (x : AuthIdentity × AuthSession). x.0.user) (ok-eq k4) in
    let ww : w ≡ i.workspace = ap (λ (x : AuthIdentity × AuthSession). x.0.workspace) (ok-eq k4) in
    let rr : r ≡ i.role = ap (λ (x : AuthIdentity × AuthSession). x.0.role) (ok-eq k4) in
    rw (← same) (
      or_not_found-eq _ e1,
      record {
        user = or_not_found-eq _ e2 ∙ ap some uu;
        workspace = or_not_found-eq _ e3 ∙ ap some ww;
        role = or_not_found-eq _ e4 ∙ ap some rr;
      },
    )

get_auth_session-IsIdentity :
    (h : Text) (d : Directory) (i : AuthIdentity) (s : AuthSession)
    → find_session h d.sessions ≡ some s
    → IsIdentity d s i
    → get_auth_session h d ≡ ok (i, s)
unfolding get_auth_session
get_auth_session-IsIdentity h d i s e k = rw (get_auth_session, e, k.user, k.workspace, k.role) refl

module _ (digest : Text → List ℕ) (mode : Mode) where
  abbrev pub IsSessionOf : Text → Instant → Directory → Principal → AuthSession → Type 0
  IsSessionOf raw_token now d p s =
      (is_empty (trim_space raw_token) ≡ false)
      × (find_session (hash_token digest raw_token) d.sessions ≡ some s)
      × (is_after s.expires_at now ≡ true)
      × ((i : AuthIdentity) × IsIdentity d s i × (p ≡ principal_of mode i))

  check_session-eq :
      (now : Instant) (d : Directory) (p : Principal) (s : AuthSession) (h : Text)
      → (check_session digest mode now (get_auth_session h d) d).0 ≡ ok (p, s)
      → (find_session h d.sessions ≡ some s)
        × (is_after s.expires_at now ≡ true)
        × (i : AuthIdentity) × IsIdentity d s i
        × (p ≡ principal_of mode i)
  unfolding check_session
  check_session-eq now d p s h e = elim (Result-cases (get_auth_session h d)) [
    | inl (reason, g) ↦ absurd (cc (rw (g, check_session) at e))
    | inr ((i, t), g) ↦ elim (Bool-cases (is_after t.expires_at now)) [
      | inl a ↦
          let both : ◌≡◌ {A = Principal × AuthSession} (principal_of mode i, t) (p, s) =
            ok-eq (rw (g, check_session, a) at e) in
          let same : t ≡ s = ap (λ (x : Principal × AuthSession). x.1) both in
          let (f, k) = get_auth_session_lem h d i t g in
          (
            f ∙ ap some same,
            rw (← same) a,
            i,
            rw (← same) k,
            sym (ap (λ (x : Principal × AuthSession). x.0) both),
          )
      | inr a ↦ absurd (cc (rw (g, check_session, a) at e))
    ]
  ]

  authenticate-eq :
      (raw_token : Text) (now : Instant) (d : Directory) (p : Principal) (s : AuthSession)
      → (authenticate digest mode raw_token now d).0 ≡ ok (p, s)
      → IsSessionOf raw_token now d p s
  unfolding authenticate check_session
  authenticate-eq raw_token now d p s h = elim (Bool-cases (is_empty (trim_space raw_token))) [
    | inl t ↦ absurd (cc (rw (authenticate, t) at h))
    | inr t ↦
        let (f, a, i, k, e) =
          check_session-eq now d p s (hash_token digest raw_token) (rw (authenticate, t) at h) in
        (t, f, a, (i, k, e))
  ]

  authenticated :
      (raw_token : Text) (now : Instant) (d : Directory) (p : Principal) (s : AuthSession)
      → IsSessionOf raw_token now d p s
      → (authenticate digest mode raw_token now d).0 ≡ ok (p, s)
  unfolding authenticate check_session
  authenticated raw_token now d p s (t, f, a, (i, k, e)) =
      rw
        (
          authenticate,
          t,
          get_auth_session-IsIdentity (hash_token digest raw_token) d i s f k,
          check_session,
          a,
        )
        (ap (λ x. ok (x, s)) (sym e))

  -- A token authenticates as a principal and a session exactly when it is not blank, the session stored
  -- under its hash is that one and not over, and the tables have, at this time, a user, a workspace
  -- and a role for the session: the principal is these, with the role that the member has now.
  pub authenticate_iff :
      (raw_token : Text) (now : Instant) (d : Directory) (p : Principal) (s : AuthSession)
      → ((authenticate digest mode raw_token now d).0 ≡ ok (p, s)) ↔ IsSessionOf raw_token now d p s
  authenticate_iff raw_token now d p s =
      (authenticate-eq raw_token now d p s, authenticated raw_token now d p s)
