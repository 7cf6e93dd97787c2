-- ===== src/Entity/Role.antt =====
-- `Update` of entity/role.go.
pub mod Updated
use mirror_backend.Common.{
  ℕ, String, Bool, true, false, not, ◌&&◌, Option, none, some, List, if◌then◌else◌, get_or, is_some,
  str_eq, ◌≡◌, ◌≢◌, refl, arith, eq_iff,
}
use mirror_backend.Entity.User.{Role, ActionCode}
use mirror_backend.Goutil.Sorting.{is_str_arr_equal}

abbrev pub get_id : Role → ℕ
get_id e = get_or 0 e.id

-- `newRole`, as far as `Update` reads it; `actions` is `none` where the slice is nil
pub record NewRole : Type 0 where
  pub id : Option ℕ
  pub name : Option String
  pub role_desc : Option String
  pub actions : Option (List ActionCode)

update_name : Option String → Role × Bool → Role × Bool
update_name name (e, has_change) =
    if is_some name && not (str_eq (get_or "" e.name) (get_or "" name))
    then (record e { name = name }, true)
    else (e, has_change)

update_role_desc : Option String → Role × Bool → Role × Bool
update_role_desc role_desc (e, has_change) =
    if is_some role_desc && not (str_eq (get_or "" e.role_desc) (get_or "" role_desc))
    then (record e { role_desc = role_desc }, true)
    else (e, has_change)

update_actions : Option (List ActionCode) → Role × Bool → Role × Bool
update_actions none (e, has_change) = (e, has_change)
update_actions (some actions) (e, has_change) =
    if is_str_arr_equal e.actions actions
    then (e, has_change)
    else (record e { actions = actions }, true)

stamp : ℕ → Role × Bool → Role × Bool
stamp now (e, has_change) =
    if has_change then (record e { update_time = some now }, true) else (e, false)

unfoldable pub update : ℕ → NewRole → Role → Role × Bool
unfolding update_name update_role_desc update_actions stamp is_str_arr_equal
update now new_role e = stamp now (
    update_actions new_role.actions
      (update_role_desc new_role.role_desc (update_name new_role.name (e, false))))
