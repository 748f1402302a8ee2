-- ===== src/Auth/Members/Owner.antt =====
-- A workspace under any sequence of calls on its members: sign-ins, the set-up of the built-in account,
-- invitations, changes of role and deletions.
use traio.Prelude.{
  ◌+◌, ◌<◌, ◌≡◌, String, Bool, true, false, not, ◌&&◌, ◌||◌, List, [], ◌∷◌, Option, none, some,
  Result, ok, err, ◌>>=◌, str_eq, if◌then◌else◌, arith, Bool-cases, Option-cases, inl, inr,
  is_empty, eq_iff, guard,
}
use traio.Prelude.Int.{ℤ}
use traio.Text.{Text}
use traio.Text.Trim.{trim_space}
use traio.Activity.Types.{eq_ℤ}
use traio.Auth.Tables.{MemberRow, AuthUser, PasswordCredential, Directory, AuthError, invalid}
use traio.Auth.Members.{
  default_workspace, find_role, owners, set_role, remove_row, keeps_owner, update_found,
  update_workspace_member_role, delete_found, delete_workspace_member,
}
use traio.Auth.Roles.{valid_role}
use traio.Auth.Members.Rows.{
  eq_ℤ-eq, UniqueRows, set_role-UniqueRows, remove_row-UniqueRows, add_row-UniqueRows,
  put_owner-UniqueRows, owners-set_role, owners-remove_row, owners-add_row, owners-put_owner,
}
use traio.Auth.Members.Join.{
  upsert_user, find_user, find_workspace, join_identity, enter, sign_in, upsert_oidc_identity,
  new_role, one_row,
}
use traio.Auth.Members.Password.{
  password_issuer, password_identity, normalized, no_rows_as, different_username, invite_as,
  invite_role, lacks_address, bootstrap_password_identity, first_account, same_account, add_owner,
  invite_workspace_member,
}

-- One row for each user of a workspace, and an owner of this one.
pub record HasOwner (w : ℤ) (d : Directory) : Type 0 where
  pub unique : UniqueRows d.members
  pub owned : 0 < owners w d.members

pub data MemberCall : Type 0 where
  oidc : Text → Text → Text → Text → MemberCall
  bootstrap : PasswordCredential → MemberCall
  invite : ℤ → Text → Text → ℤ → MemberCall
  update_role : ℤ → ℤ → String → MemberCall
  delete : ℤ → ℤ → MemberCall

-- The tables after a call: an error leaves them.
abbrev left_by {ℓ} : {A : Type ℓ} → Directory → Result AuthError (A × Directory) → Directory
left_by d (ok (a, d')) = d'
left_by d (err reason) = d

abbrev left : Directory → Result AuthError Directory → Directory
left d (ok d') = d'
left d (err reason) = d

-- What holds of the tables that an answer leaves.
abbrev Answers {ℓ} : {A : Type ℓ} → (Directory → Type 0) → Result AuthError (A × Directory) → Type 0
Answers P (ok (a, d)) = P d
Answers P (err reason) = Unit {0}

>>=-Answers {ℓ κ} :
    {A : Type ℓ} {B : Type κ} (P : Directory → Type 0) (m : Result AuthError A)
    (k : A → Result AuthError (B × Directory))
    → ((a : A) → Answers P (k a))
    → Answers P (m >>= k)
>>=-Answers P (ok a) k h = h a
>>=-Answers P (err reason) k h = tt

if-Holds {ℓ} :
    {A : Type ℓ} (P : A → Type 0) (b : Bool) {x y : A} → P x → P y → P (if b then x else y)
if-Holds P true h k = h
if-Holds P false h k = k

left_by-Answers {ℓ} :
    {A : Type ℓ} (P : Directory → Type 0) (d : Directory) (r : Result AuthError (A × Directory))
    → P d
    → Answers P r
    → P (left_by d r)
left_by-Answers P d (ok (a, d')) h k = k
left_by-Answers P d (err reason) h k = h

unfoldable pub call : (Text → Text) → (Text → Text) → MemberCall → Directory → Directory
unfolding upsert_oidc_identity bootstrap_password_identity invite_workspace_member
    update_workspace_member_role delete_workspace_member
call lower db_lower (oidc issuer subject email name) d =
    left_by d (upsert_oidc_identity db_lower issuer subject email name d)
call lower db_lower (bootstrap credential) d =
    left_by d (bootstrap_password_identity lower credential d)
call lower db_lower (invite w email role by) d =
    left d (invite_workspace_member lower w email role by d)
call lower db_lower (update_role w u role) d = left d (update_workspace_member_role w u role d)
call lower db_lower (delete w u) d = left d (delete_workspace_member w u d)

unfoldable pub run_calls : (Text → Text) → (Text → Text) → List MemberCall → Directory → Directory
unfolding call
run_calls lower db_lower [] d = d
run_calls lower db_lower (c ∷ cs) d = run_calls lower db_lower cs (call lower db_lower c d)

-- The guard leaves an owner: the write takes at most one away, and then there were two.
guard_leaves :
    (w v : ℤ) (current role : String) (ms new : List MemberRow)
    → keeps_owner v current role ms ≡ true
    → owners w new + (if eq_ℤ v w && str_eq current "owner" then 1 else 0)
      ≡ owners w ms + (if eq_ℤ v w && str_eq role "owner" then 1 else 0)
    → 0 < owners w ms
    → 0 < owners w new
unfolding keeps_owner
guard_leaves w v current role ms new k e h = elim (Bool-cases (eq_ℤ v w)) [
  | inl s ↦ let same : v ≡ w = eq_ℤ-eq v w s in ground (arith, rw same at k, rw s at e)
  | inr n ↦ let kept : owners w new + 0 ≡ owners w ms + 0 = rw n at e in omega arith
]

module _ (w : ℤ) where
  update-HasOwner :
      (v u : ℤ) (role : String) (d : Directory)
      → HasOwner w d
      → HasOwner w (left d (update_workspace_member_role v u role d))
  unfolding update_workspace_member_role update_found
  update-HasOwner v u role d h = elim (Bool-cases (valid_role role)) [
    | inr e ↦ rw e h
    | inl e ↦ elim (Option-cases (find_role v u d.members)) [
      | inl n ↦ rw (e, n) h
      | inr (current, f) ↦ elim (Bool-cases (keeps_owner v current role d.members)) [
        | inr k ↦ rw (e, f, update_found, k) h
        | inl k ↦
            rw (e, f, update_found, k)
              (record {
                unique = set_role-UniqueRows v u role d.members h.unique;
                owned =
                    guard_leaves w v current role d.members (set_role v u role d.members) k
                      (owners-set_role w v u role current d.members h.unique f) h.owned;
              })
      ]
    ]
  ]

  delete-HasOwner :
      (v u : ℤ) (d : Directory) → HasOwner w d → HasOwner w (left d (delete_workspace_member v u d))
  unfolding delete_workspace_member delete_found
  delete-HasOwner v u d h = elim (Option-cases (find_role v u d.members)) [
    | inl n ↦ rw n h
    | inr (current, f) ↦ elim (Bool-cases (keeps_owner v current "" d.members)) [
      | inr k ↦ rw (f, delete_found, k) h
      | inl k ↦
          rw (f, delete_found, k)
            (record {
              unique = remove_row-UniqueRows v u d.members h.unique;
              owned =
                  guard_leaves w v current "" d.members (remove_row v u d.members) k
                    (ground (
                      arith,
                      owners-remove_row w v u current d.members h.unique f,
                      eq_iff "" "owner",
                    ))
                    h.owned;
            })
    ]
  ]

  join-HasOwner :
      (u : AuthUser) (d : Directory) → HasOwner w d → Answers (HasOwner w) (join_identity u d)
  unfolding join_identity
  join-HasOwner u d h =
      >>=-Answers (HasOwner w) (one_row (find_role default_workspace u.id d.members)) _ λ role.
        >>=-Answers (HasOwner w) (one_row (find_workspace default_workspace d.workspaces)) _
          λ workspace. h

  sign_in-HasOwner :
      (db_lower : Text → Text) (email : Text) (u : AuthUser) (o : Option String) (d : Directory)
      → HasOwner w d
      → Answers (HasOwner w) (sign_in db_lower email u o d)
  unfolding sign_in enter
  sign_in-HasOwner db_lower email u (some role) d h = join-HasOwner u d h
  sign_in-HasOwner db_lower email u none d h =
      >>=-Answers (HasOwner w) (new_role db_lower email d) _ λ role.
        join-HasOwner u (enter db_lower email u role d) (record {
          unique = add_row-UniqueRows default_workspace u.id role d.members h.unique;
          owned = omega (arith, h.owned, owners-add_row w default_workspace u.id role d.members);
        })

  upsert_user-HasOwner :
      (issuer subject email name : Text) (d : Directory)
      → HasOwner w d
      → HasOwner w (upsert_user issuer subject email name d)
  unfolding upsert_user
  upsert_user-HasOwner issuer subject email name d h =
      elim (Option-cases (find_user issuer subject d.users)) [
        | inl e ↦ rw (upsert_user, e) (record { unique = h.unique; owned = h.owned })
        | inr (u, e) ↦ rw (upsert_user, e) (record { unique = h.unique; owned = h.owned })
      ]

  oidc-HasOwner :
      (db_lower : Text → Text) (issuer subject email name : Text) (d : Directory)
      → HasOwner w d
      → Answers (HasOwner w) (upsert_oidc_identity db_lower issuer subject email name d)
  unfolding upsert_oidc_identity
  oidc-HasOwner db_lower issuer subject email name d h =
      let d' =
        upsert_user (trim_space issuer) (trim_space subject) (trim_space email) (trim_space name)
          d in
      >>=-Answers (HasOwner w)
        (guard (not (is_empty (trim_space issuer) || is_empty (trim_space subject))) _) _
        λ t.
          >>=-Answers (HasOwner w)
            (one_row (find_user (trim_space issuer) (trim_space subject) d'.users)) _
            λ u.
              sign_in-HasOwner db_lower email u (find_role default_workspace u.id d'.members) d' (
                upsert_user-HasOwner (trim_space issuer) (trim_space subject) (trim_space email)
                  (trim_space name) d h)

  first-HasOwner :
      (c : PasswordCredential) (d : Directory)
      → HasOwner w d
      → Answers (HasOwner w) (first_account c d)
  unfolding first_account add_owner
  first-HasOwner c d h =
      let d' = upsert_user password_issuer c.username c.email c.name d in
      let h' = upsert_user-HasOwner password_issuer c.username c.email c.name d h in
      >>=-Answers (HasOwner w) (one_row (find_user password_issuer c.username d'.users)) _ λ u.
        >>=-Answers (HasOwner w) (password_identity c.username (add_owner c u.id d')) _ λ i.
          record {
            unique = put_owner-UniqueRows default_workspace u.id d'.members h'.unique;
            owned =
                omega
                  (arith, h'.owned, owners-put_owner w default_workspace u.id d'.members h'.unique);
          }

  same-HasOwner :
      (c : PasswordCredential) (d : Directory)
      → HasOwner w d
      → Answers (HasOwner w) (same_account c d)
  unfolding same_account
  same-HasOwner c d h =
      >>=-Answers (HasOwner w)
        (no_rows_as (invalid different_username) (password_identity c.username d))
        (λ i. ok ((i.0, false), d)) λ i. h

  bootstrap-HasOwner :
      (lower : Text → Text) (c : PasswordCredential) (d : Directory)
      → HasOwner w d
      → Answers (HasOwner w) (bootstrap_password_identity lower c d)
  unfolding bootstrap_password_identity same_account
  bootstrap-HasOwner lower credential d h =
      let c = normalized lower credential in
      if-Holds (Answers (HasOwner w)) (is_empty c.username || str_eq c.password_hash "") tt (
        if-Holds (Answers (HasOwner w)) (is_empty d.credentials) (first-HasOwner c d h)
          (same-HasOwner c d h))

  as-HasOwner :
      (v : ℤ) (address : Text) (by : ℤ) (o : Option String) (d : Directory)
      → HasOwner w d
      → HasOwner w (left d (invite_as v address by o d))
  unfolding invite_as
  as-HasOwner v address by none d h = h
  as-HasOwner v address by (some role) d h = record { unique = h.unique; owned = h.owned }

  invite-HasOwner :
      (lower : Text → Text) (v : ℤ) (email role : Text) (by : ℤ) (d : Directory)
      → HasOwner w d
      → HasOwner w (left d (invite_workspace_member lower v email role by d))
  unfolding invite_workspace_member
  invite-HasOwner lower v email role by d h =
      if-Holds (λ r. HasOwner w (left d r)) (lacks_address v by (lower (trim_space email)))
        {x = err (invalid "valid workspace, inviter, and email are required")}
        {y = invite_as v (lower (trim_space email)) by (invite_role (lower (trim_space role))) d} h
        (as-HasOwner v (lower (trim_space email)) by (invite_role (lower (trim_space role))) d h)

  call-HasOwner :
      (lower db_lower : Text → Text) (c : MemberCall) (d : Directory)
      → HasOwner w d
      → HasOwner w (call lower db_lower c d)
  unfolding call
  call-HasOwner lower db_lower (oidc issuer subject email name) d h =
      left_by-Answers (HasOwner w) d _ h (oidc-HasOwner db_lower issuer subject email name d h)
  call-HasOwner lower db_lower (bootstrap c) d h =
      left_by-Answers (HasOwner w) d _ h (bootstrap-HasOwner lower c d h)
  call-HasOwner lower db_lower (invite v email role by) d h =
      invite-HasOwner lower v email role by d h
  call-HasOwner lower db_lower (update_role v u role) d h = update-HasOwner v u role d h
  call-HasOwner lower db_lower (delete v u) d h = delete-HasOwner v u d h

-- From tables with one row for each user of a workspace, a workspace that has an owner keeps one,
-- whatever calls on members follow one another: sign-ins, set-ups of the built-in account,
-- invitations, changes of role and deletions, of any workspace and user.
pub run_calls-HasOwner :
    (w : ℤ) (lower db_lower : Text → Text) (cs : List MemberCall) (d : Directory)
    → HasOwner w d
    → HasOwner w (run_calls lower db_lower cs d)
unfolding run_calls
run_calls-HasOwner w lower db_lower [] d h = h
run_calls-HasOwner w lower db_lower (c ∷ cs) d h =
    run_calls-HasOwner w lower db_lower cs (call lower db_lower c d)
      (call-HasOwner w lower db_lower c d h)
