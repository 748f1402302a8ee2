-- ===== src/Auth/Members/Rows.antt =====
-- The rows of `workspace_members`: one row for each user of a workspace, and the count of owners.
use traio.Prelude.{
  ◌+◌, ◌≤◌, ◌≡◌, refl, String, true, ◌&&◌, List, [], ◌∷◌, none, some, str_eq, if◌then◌else◌, arith,
  Bool-cases, Option-cases, inl, inr,
}
use traio.Prelude.Int.{ℤ}
use traio.Activity.Types.{eq_ℤ}
use traio.Auth.Tables.{MemberRow}
use traio.Auth.Members.{is_row, find_role, owners, set_role, remove_row, add_row}
use traio.Auth.Members.Password.{put_owner}

-- The primary key of the table.
abbrev pub UniqueRows : List MemberRow → Type 0
UniqueRows [] = Unit {0}
UniqueRows (m ∷ ms) = (find_role m.workspace_id m.user_id ms ≡ none) × UniqueRows ms

pub eq_ℤ-eq : (a b : ℤ) → eq_ℤ a b ≡ true → a ≡ b
eq_ℤ-eq a b h = ground arith

is_row-absent :
    (w u : ℤ) (m : MemberRow) (ms : List MemberRow)
    → is_row w u m ≡ true
    → find_role m.workspace_id m.user_id ms ≡ none
    → find_role w u ms ≡ none
is_row-absent w u m ms h n =
    cc (eq_ℤ-eq m.workspace_id w (ground arith), eq_ℤ-eq m.user_id u (ground arith))

pub set_role-absent :
    (w u : ℤ) (role : String) (ms : List MemberRow)
    → find_role w u ms ≡ none
    → set_role w u role ms ≡ ms
unfolding find_role set_role
set_role-absent w u role [] h = refl
set_role-absent w u role (m ∷ ms) h = ground (arith, set_role-absent w u role ms)

pub remove_row-absent :
    (w u : ℤ) (ms : List MemberRow) → find_role w u ms ≡ none → remove_row w u ms ≡ ms
unfolding find_role remove_row
remove_row-absent w u [] h = refl
remove_row-absent w u (m ∷ ms) h = ground (arith, remove_row-absent w u ms)

pub set_role-keeps_absent :
    (w u v t : ℤ) (role : String) (ms : List MemberRow)
    → find_role v t ms ≡ none
    → find_role v t (set_role w u role ms) ≡ none
unfolding find_role set_role
set_role-keeps_absent w u v t role [] h = refl
set_role-keeps_absent w u v t role (m ∷ ms) h = elim (Bool-cases (is_row v t m)) [
  | inl e ↦ cc (e)
  | inr e ↦ elim (Bool-cases (is_row w u m)) [
    | inl k ↦ rw (k, e) (set_role-keeps_absent w u v t role ms (rw e at h))
    | inr k ↦ rw (k, e) (set_role-keeps_absent w u v t role ms (rw e at h))
  ]
]

pub remove_row-keeps_absent :
    (w u v t : ℤ) (ms : List MemberRow)
    → find_role v t ms ≡ none
    → find_role v t (remove_row w u ms) ≡ none
unfolding find_role remove_row
remove_row-keeps_absent w u v t [] h = refl
remove_row-keeps_absent w u v t (m ∷ ms) h = elim (Bool-cases (is_row v t m)) [
  | inl e ↦ absurd (cc (rw e at h))
  | inr e ↦ elim (Bool-cases (is_row w u m)) [
    | inl k ↦ rw k (remove_row-keeps_absent w u v t ms (rw e at h))
    | inr k ↦ rw (k, e) (remove_row-keeps_absent w u v t ms (rw e at h))
  ]
]

pub find_role-set_role :
    (w u : ℤ) (role current : String) (ms : List MemberRow)
    → find_role w u ms ≡ some current
    → find_role w u (set_role w u role ms) ≡ some role
unfolding find_role set_role
find_role-set_role w u role current [] h = cc
find_role-set_role w u role current (m ∷ ms) h = elim (Bool-cases (is_row w u m)) [
  | inl e ↦ rw (e, e) refl
  | inr e ↦ rw (e, e) (find_role-set_role w u role current ms (rw e at h))
]

pub find_role-remove_row :
    (w u : ℤ) (ms : List MemberRow) → find_role w u (remove_row w u ms) ≡ none
unfolding find_role remove_row
find_role-remove_row w u [] = refl
find_role-remove_row w u (m ∷ ms) = elim (Bool-cases (is_row w u m)) [
  | inl e ↦ rw e (find_role-remove_row w u ms)
  | inr e ↦ rw (e, e) (find_role-remove_row w u ms)
]

pub set_role-UniqueRows :
    (w u : ℤ) (role : String) (ms : List MemberRow)
    → UniqueRows ms
    → UniqueRows (set_role w u role ms)
unfolding set_role
set_role-UniqueRows w u role [] h = tt
set_role-UniqueRows w u role (m ∷ ms) h = elim (Bool-cases (is_row w u m)) [
  | inl e ↦ rw e (
    set_role-keeps_absent w u m.workspace_id m.user_id role ms h.0,
    set_role-UniqueRows w u role ms h.1,
  )
  | inr e ↦ rw e (
    set_role-keeps_absent w u m.workspace_id m.user_id role ms h.0,
    set_role-UniqueRows w u role ms h.1,
  )
]

pub remove_row-UniqueRows :
    (w u : ℤ) (ms : List MemberRow) → UniqueRows ms → UniqueRows (remove_row w u ms)
unfolding remove_row
remove_row-UniqueRows w u [] h = tt
remove_row-UniqueRows w u (m ∷ ms) h = elim (Bool-cases (is_row w u m)) [
  | inl e ↦ rw e (remove_row-UniqueRows w u ms h.1)
  | inr e ↦ rw e (
    remove_row-keeps_absent w u m.workspace_id m.user_id ms h.0,
    remove_row-UniqueRows w u ms h.1,
  )
]

pub add_row-UniqueRows :
    (w u : ℤ) (role : String) (ms : List MemberRow)
    → UniqueRows ms
    → UniqueRows (add_row w u role ms)
unfolding add_row
add_row-UniqueRows w u role ms h = elim (Option-cases (find_role w u ms)) [
  | inl e ↦ rw (add_row, e) (e, h)
  | inr (r, e) ↦ rw (add_row, e) h
]

-- The count of owners after each write.
pub owners-set_role :
    (w v u : ℤ) (role current : String) (ms : List MemberRow)
    → UniqueRows ms
    → find_role v u ms ≡ some current
    → owners w (set_role v u role ms) + (if eq_ℤ v w && str_eq current "owner" then 1 else 0)
      ≡ owners w ms + (if eq_ℤ v w && str_eq role "owner" then 1 else 0)
unfolding find_role set_role owners
owners-set_role w v u role current [] h f = cc
owners-set_role w v u role current (m ∷ ms) h f = elim (Bool-cases (is_row v u m)) [
  | inl e ↦
      ground (
        arith,
        set_role-absent v u role ms (is_row-absent v u m ms e h.0),
        eq_ℤ-eq m.workspace_id v,
      )
  | inr e ↦ ground (arith, owners-set_role w v u role current ms h.1)
]

pub owners-remove_row :
    (w v u : ℤ) (current : String) (ms : List MemberRow)
    → UniqueRows ms
    → find_role v u ms ≡ some current
    → owners w (remove_row v u ms) + (if eq_ℤ v w && str_eq current "owner" then 1 else 0)
      ≡ owners w ms
unfolding find_role remove_row owners
owners-remove_row w v u current [] h f = cc
owners-remove_row w v u current (m ∷ ms) h f = elim (Bool-cases (is_row v u m)) [
  | inl e ↦
      ground
        (arith, remove_row-absent v u ms (is_row-absent v u m ms e h.0), eq_ℤ-eq m.workspace_id v)
  | inr e ↦ ground (arith, owners-remove_row w v u current ms h.1)
]

pub owners-add_row :
    (w v u : ℤ) (role : String) (ms : List MemberRow) → owners w ms ≤ owners w (add_row v u role ms)
unfolding add_row owners
owners-add_row w v u role ms = ground arith

pub put_owner-UniqueRows :
    (w u : ℤ) (ms : List MemberRow) → UniqueRows ms → UniqueRows (put_owner w u ms)
unfolding put_owner
put_owner-UniqueRows w u ms h = elim (Option-cases (find_role w u ms)) [
  | inl e ↦ rw (put_owner, e) (e, h)
  | inr (r, e) ↦ rw (put_owner, e) (set_role-UniqueRows w u "owner" ms h)
]

pub owners-put_owner :
    (w v u : ℤ) (ms : List MemberRow) → UniqueRows ms → owners w ms ≤ owners w (put_owner v u ms)
unfolding put_owner owners
owners-put_owner w v u ms h = elim (Option-cases (find_role v u ms)) [
  | inl e ↦ rw (put_owner, e) (ground arith)
  | inr (r, e) ↦ rw (put_owner, e) (ground (arith, owners-set_role w v u "owner" r ms h e))
]
