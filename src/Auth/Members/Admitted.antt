-- ===== src/Auth/Members/Admitted.antt =====
-- Whom a sign-in through a provider lets into the default workspace, and with what role.
use traio.Prelude.{
  ◌≡◌, refl, sym, ap, ◌∙◌, String, not, ◌&&◌, ◌||◌, List, [], ◌∷◌, Option, none, some, ok, guard,
  >>=-eq-ok, ok-eq, some-eq, ◌==◌, ==_iff, arith, Bool-cases, Option-cases, ◌⊎◌, inl, inr, is_empty,
}
use traio.Prelude.Int.{ℤ}
use traio.Text.{Text, text_eq, text_eq_iff}
use traio.Text.Trim.{trim_space}
use traio.Auth.Tables.{AuthUser, AuthIdentity, MemberRow, Directory, invalid}
use traio.Auth.Members.{default_workspace, find_role, member_count, add_row}
use traio.Auth.Members.Join.{
  find_user, find_workspace, find_invite, upsert_user, one_row, join_identity, enter, new_role,
  invited, sign_in, upsert_oidc_identity,
}

abbrev pub row_of : AuthIdentity → MemberRow
row_of i = record { workspace_id = default_workspace; user_id = i.user.id; role = i.role }

-- A member before, with the same role; or a new one, the first of the workspace as its owner, or with
-- the role of an invitation of the email.
abbrev pub IsAdmitted : (Text → Text) → Text → Directory → AuthIdentity → Directory → Type 0
IsAdmitted db_lower email d i d' =
    ((find_role default_workspace i.user.id d.members ≡ some i.role) × (d'.members ≡ d.members))
    ⊎ ((find_role default_workspace i.user.id d.members ≡ none)
        × (d'.members ≡ row_of i ∷ d.members)
        × (((member_count default_workspace d.members ≡ 0) × (i.role ≡ "owner"))
            ⊎ (find_invite db_lower default_workspace email d.invites ≡ some i.role)))

one_row-eq {ℓ} : {A : Type ℓ} (o : Option A) {a : A} → one_row o ≡ ok a → o ≡ some a
one_row-eq none h = cc
one_row-eq (some b) h = cc

join_identity_lem :
    (u : AuthUser) (d d' : Directory) (i : AuthIdentity)
    → join_identity u d ≡ ok (i, d')
    → (i.user ≡ u) × (d' ≡ d) × (find_role default_workspace u.id d.members ≡ some i.role)
unfolding join_identity
join_identity_lem u d d' i h =
    let (role, e, h') = >>=-eq-ok (one_row (find_role default_workspace u.id d.members)) _ h in
    let (workspace, f, k) =
      >>=-eq-ok (one_row (find_workspace default_workspace d.workspaces)) _ h' in
    (cc, cc, cc (one_row-eq (find_role default_workspace u.id d.members) e))

invited-eq : (o : Option String) {role : String} → invited o ≡ ok role → o ≡ some role
invited-eq none h = cc
invited-eq (some r) h = cc

new_role_lem :
    (db_lower : Text → Text) (email : Text) (d : Directory) (role : String)
    → new_role db_lower email d ≡ ok role
    → ((member_count default_workspace d.members ≡ 0) × (role ≡ "owner"))
      ⊎ (find_invite db_lower default_workspace email d.invites ≡ some role)
unfolding new_role
new_role_lem db_lower email d role h =
    elim (Bool-cases (member_count default_workspace d.members == 0)) [
      | inl e ↦ inl (
        (==_iff (member_count default_workspace d.members) 0).0 e,
        sym (ok-eq (rw (new_role, e) at h)),
      )
      | inr e ↦ elim (Bool-cases (is_empty (trim_space email))) [
        | inl k ↦ absurd (cc (rw (new_role, e, k) at h))
        | inr k ↦ inr (
            invited-eq (find_invite db_lower default_workspace email d.invites)
              (rw (new_role, e, k) at h))
      ]
    ]

add_row-new :
    (w u : ℤ) (role : String) (ms : List MemberRow)
    → find_role w u ms ≡ none
    → add_row w u role ms ≡ record { workspace_id = w; user_id = u; role = role } ∷ ms
unfolding add_row
add_row-new w u role ms e = rw (add_row, e)

find_role-added :
    (w u : ℤ) (role : String) (ms : List MemberRow)
    → find_role w u (record { workspace_id = w; user_id = u; role = role } ∷ ms) ≡ some role
unfolding find_role
find_role-added w u role ms = ground arith

upsert_user-keeps :
    (issuer subject email name : Text) (d : Directory)
    → ((upsert_user issuer subject email name d).members ≡ d.members)
      × ((upsert_user issuer subject email name d).invites ≡ d.invites)
unfolding upsert_user
upsert_user-keeps issuer subject email name d =
    elim (Option-cases (find_user issuer subject d.users)) [
      | inl e ↦ rw (upsert_user, e) (refl, refl)
      | inr (u, e) ↦ rw (upsert_user, e) (refl, refl)
    ]

find_user_lem :
    (issuer subject : Text) (us : List AuthUser) {u : AuthUser}
    → find_user issuer subject us ≡ some u
    → (u.issuer ≡ issuer) × (u.subject ≡ subject)
unfolding find_user
find_user_lem issuer subject [] h = cc
find_user_lem issuer subject (v ∷ us) {u} h =
    elim (Bool-cases (text_eq v.issuer issuer && text_eq v.subject subject)) [
      | inl e ↦
          let s : v ≡ u = some-eq (rw e at h) in
          rw (← s) (
            (text_eq_iff v.issuer issuer).0 (ground arith),
            (text_eq_iff v.subject subject).0 (ground arith),
          )
      | inr e ↦ find_user_lem issuer subject us (rw e at h)
    ]

sign_in_lem :
    (db_lower : Text → Text) (email : Text) (u : AuthUser) (d d' : Directory) (i : AuthIdentity)
    → sign_in db_lower email u (find_role default_workspace u.id d.members) d ≡ ok (i, d')
    → (i.user ≡ u) × IsAdmitted db_lower email d i d'
unfolding sign_in
sign_in_lem db_lower email u d d' i h =
    elim (Option-cases (find_role default_workspace u.id d.members)) [
      | inr (role, e) ↦
          let (a, b, c) = join_identity_lem u d d' i (rw (sign_in, e) at h) in
          (a, inl (rw a c, ap (λ (x : Directory). x.members) b))
      | inl e ↦
          let (role, f, k) = >>=-eq-ok (new_role db_lower email d) _ (rw (sign_in, e) at h) in
          let (a, b, c) = join_identity_lem u (enter db_lower email u role d) d' i k in
          let n : add_row default_workspace u.id role d.members
              ≡ record { workspace_id = default_workspace; user_id = u.id; role = role }
                ∷ d.members =
            add_row-new default_workspace u.id role d.members e in
          let r : role ≡ i.role = some-eq (
            sym (find_role-added default_workspace u.id role d.members)
            ∙ ap (find_role default_workspace u.id) (sym n)
            ∙ c) in
          (
            a,
            inr (
              rw a e,
              ap (λ (x : Directory). x.members) b ∙ n ∙ cc (a, r),
              rw r at (new_role_lem db_lower email d role f),
            ),
          )
    ]

IsAdmitted-at :
    (db_lower : Text → Text) (email : Text) (d1 d d' : Directory) (i : AuthIdentity)
    → d1.members ≡ d.members
    → d1.invites ≡ d.invites
    → IsAdmitted db_lower email d1 i d'
    → IsAdmitted db_lower email d i d'
IsAdmitted-at db_lower email d1 d d' i m n (inl (a, b)) = inl (rw m at a, b ∙ m)
IsAdmitted-at db_lower email d1 d d' i m n (inr (a, b, inl (c, r))) =
    inr (rw m at a, b ∙ ap (λ ms. row_of i ∷ ms) m, inl (rw m at c, r))
IsAdmitted-at db_lower email d1 d d' i m n (inr (a, b, inr c)) =
    inr (rw m at a, b ∙ ap (λ ms. row_of i ∷ ms) m, inr (rw n at c))

-- A sign-in that is let in answers the identity of the trimmed issuer and subject. Either this user was
-- a member of the default workspace and keeps the role, and the members are as before; or the user
-- was none, and is added as the workspace's first member and owner, or with the role of an
-- invitation that the workspace has for the email. No other member is added or changed.
pub upsert_oidc_identity-IsAdmitted :
    (db_lower : Text → Text) (issuer subject email name : Text) (d d' : Directory)
    (i : AuthIdentity)
    → upsert_oidc_identity db_lower issuer subject email name d ≡ ok (i, d')
    → (i.user.issuer ≡ trim_space issuer)
      × (i.user.subject ≡ trim_space subject)
      × IsAdmitted db_lower email d i d'
unfolding upsert_oidc_identity
upsert_oidc_identity-IsAdmitted db_lower issuer subject email name d d' i h =
    let d1 =
      upsert_user (trim_space issuer) (trim_space subject) (trim_space email) (trim_space name) d in
    let (t, g, h1) =
      >>=-eq-ok
        (guard (not (is_empty (trim_space issuer) || is_empty (trim_space subject)))
          (invalid "issuer and subject are required"))
        _ h in
    let (u, f, h2) =
      >>=-eq-ok (one_row (find_user (trim_space issuer) (trim_space subject) d1.users)) _ h1 in
    let (same, a) = sign_in_lem db_lower email u d1 d' i h2 in
    let (s, k) = find_user_lem (trim_space issuer) (trim_space subject) d1.users (one_row-eq _ f) in
    let (ms, is) =
      upsert_user-keeps (trim_space issuer) (trim_space subject) (trim_space email)
        (trim_space name) d in
    (rw same s, rw same k, IsAdmitted-at db_lower email d1 d d' i ms is a)
