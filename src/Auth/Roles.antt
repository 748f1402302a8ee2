-- ===== src/Auth/Roles.antt =====
-- The permissions of a role: `Allows` of internal/auth/auth.go and `validRole` of
-- internal/store/auth.go.
use traio.Prelude.{ℕ, ◌≤◌, ◌≡◌, refl, String, Bool, true, false, ◌||◌, str_eq, arith, if◌then◌else◌}

pub data Permission : Type 0 where
  view watchlist_write broker_manage broker_sync settings_manage members_manage workspace_owner
        system_manage trade_execute :
      Permission

unfoldable pub admin_allows : Permission → Bool
admin_allows workspace_owner = false
admin_allows _ = true

unfoldable pub member_allows : Permission → Bool
member_allows view = true
member_allows watchlist_write = true
member_allows broker_sync = true
member_allows _ = false

unfoldable pub viewer_allows : Permission → Bool
viewer_allows view = true
viewer_allows _ = false

unfoldable pub allows : String → Permission → Bool
allows role p =
    if str_eq role "owner"
    then true
    else if str_eq role "admin"
    then admin_allows p
    else if str_eq role "member"
    then member_allows p
    else if str_eq role "viewer"
    then viewer_allows p
    else false

unfoldable pub valid_role : String → Bool
valid_role role =
    str_eq role "owner" || str_eq role "admin" || str_eq role "member" || str_eq role "viewer"

-- The order of the roles; a role that is none of the four is the lowest.
abbrev pub role_rank : String → ℕ
role_rank role =
    if str_eq role "owner"
    then 4
    else if str_eq role "admin"
    then 3
    else if str_eq role "member"
    then 2
    else if str_eq role "viewer"
    then 1
    else 0

admin_owner : (p : Permission) → member_allows p ≡ true → admin_allows p ≡ true
unfolding member_allows admin_allows
admin_owner view h = refl
admin_owner watchlist_write h = refl
admin_owner broker_manage h = refl
admin_owner broker_sync h = refl
admin_owner settings_manage h = refl
admin_owner members_manage h = refl
admin_owner workspace_owner h = h
admin_owner system_manage h = refl
admin_owner trade_execute h = refl

viewer_member : (p : Permission) → viewer_allows p ≡ true → member_allows p ≡ true
unfolding member_allows viewer_allows
viewer_member view h = refl
viewer_member watchlist_write h = refl
viewer_member broker_manage h = h
viewer_member broker_sync h = refl
viewer_member settings_manage h = h
viewer_member members_manage h = h
viewer_member workspace_owner h = h
viewer_member system_manage h = h
viewer_member trade_execute h = h

-- A higher role is allowed all that a lower one is.
pub allows_monotone :
    (low high : String) (p : Permission)
    → role_rank low ≤ role_rank high
    → allows low p ≡ true
    → allows high p ≡ true
unfolding allows
allows_monotone low high p l h = ground (arith, l, h, admin_owner p, viewer_member p)
