-- ===== src/Entity/User.antt =====
-- entity/user.go and entity/role.go: users, roles and which role a user has.
pub mod Update
pub mod Creation
use mirror_backend.Common.{
  ℕ, String, Bool, true, false, not, ◌&&◌, Option, some, List, ◌==◌, if◌then◌else◌, get_or, is_some,
  str_eq,
}

abbrev pub ActionCode : Type 0
ActionCode = String

pub record Role : Type 0 where
  pub id : Option ℕ
  pub name : Option String
  pub role_desc : Option String
  pub status : ℕ
  pub actions : List ActionCode
  pub tenant_id : Option ℕ
  pub create_time : Option ℕ
  pub update_time : Option ℕ

pub record UserRole : Type 0 where
  pub id : Option ℕ
  pub tenant_id : Option ℕ
  pub user_id : Option ℕ
  pub role_id : Option ℕ
  pub create_time : Option ℕ
  pub update_time : Option ℕ

abbrev pub get_role_id : UserRole → ℕ
get_role_id e = get_or 0 e.role_id

abbrev pub UserStatus : Type 0
UserStatus = ℕ

abbrev pub user_status_unknown : UserStatus
user_status_unknown = 0

pub record User : Type 0 where
  pub id : Option ℕ
  pub tenant_id : Option ℕ
  pub email : Option String
  pub username : Option String
  pub password : Option String
  pub display_name : Option String
  pub status : UserStatus
  pub create_time : Option ℕ
  pub update_time : Option ℕ
  pub role : Option Role

abbrev pub get_id : User → ℕ
get_id e = get_or 0 e.id

abbrev pub get_tenant_id : User → ℕ
get_tenant_id e = get_or 0 e.tenant_id

abbrev pub get_password : User → String
get_password e = get_or "" e.password

update_status : UserStatus → User × Bool → User × Bool
update_status status (e, has_change) =
    if not (status == user_status_unknown) && not (e.status == status)
    then (record e { status = status }, true)
    else (e, has_change)

update_password : Option String → User × Bool → User × Bool
update_password password (e, has_change) =
    if is_some password && not (str_eq (get_password e) (get_or "" password))
    then (record e { password = password }, true)
    else (e, has_change)

stamp : ℕ → User × Bool → User × Bool
stamp now (e, has_change) =
    if has_change then (record e { update_time = some now }, true) else (e, false)

-- `newUser` gives its status and its password
unfoldable pub update : ℕ → UserStatus → Option String → User → User × Bool
unfolding update_status update_password stamp
update now status password e =
    stamp now (update_password password (update_status status (e, false)))
