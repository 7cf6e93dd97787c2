-- ===== src/Handler/Roles.antt =====
-- handler/role.go: `CreateRole` and `UpdateRoles`. The repository is a parameter.
pub mod Changes
use mirror_backend.Common.{
  ℕ, String, Bool, true, false, not, Option, none, some, List, [], ◌∷◌, ◌++◌, map, ◌==◌,
  if◌then◌else◌, get_or, length,
}
use mirror_backend.Action.{Action, Failure, message, pure, raise, raise_if, ◌>>=◌, ◌>>◌}
use mirror_backend.Entity.User.{Role, ActionCode}
use mirror_backend.Entity.Role.{NewRole, get_id, update}
use mirror_backend.Goutil.{remove_str_duplicates}
use mirror_backend.Handler.Values.{
  ContextInfo, check_valid, get_tenant_id, uint64_field, string_field, context_value,
}
use mirror_backend.Validator.{
  Any, pointer, str, Items, no_item, item, slice, nil_slice, struct, no_field, field, Validator,
  slice_validator, uint64_validator, other_validator, no_entry, entry,
}
use mirror_backend.Validator.Form.{validate}
use mirror_backend.Validator.Requests.{
  must_form, number_rule, resource_name_validator, resource_desc_validator, context_info_validator,
  actions_validator,
}

abbrev pub role_status_normal : ℕ
role_status_normal = 1

-- `actions` is `[]` where the JSON gives none
pub record UpdateRoleRequest : Type 0 where
  pub id : Option ℕ
  pub name : Option String
  pub role_desc : Option String
  pub actions : List String

pub record UpdateRolesRequest : Type 0 where
  pub context : ContextInfo
  pub roles : List UpdateRoleRequest

pub record CreateRoleRequest : Type 0 where
  pub context : ContextInfo
  pub name : Option String
  pub role_desc : Option String
  pub actions : List String

abbrev string_values : List String → Items
string_values [] = no_item
string_values (s ∷ ss) = item (str s) (string_values ss)

abbrev actions_value : List String → Any
actions_value [] = nil_slice
actions_value (s ∷ ss) = slice (string_values (s ∷ ss))

abbrev update_value : UpdateRoleRequest → Any
update_value req = pointer (
    struct (
      field "ID" "id,omitempty" (uint64_field req.id) (
        field "Name" "name,omitempty" (string_field req.name) (
          field "RoleDesc" "role_desc,omitempty" (string_field req.role_desc)
            (field "Actions" "actions,omitempty" (actions_value req.actions) no_field)))))

abbrev update_values : List UpdateRoleRequest → Items
update_values [] = no_item
update_values (r ∷ rs) = item (update_value r) (update_values rs)

abbrev pub update_roles_value : UpdateRolesRequest → Any
update_roles_value req = pointer (
    struct (
      field "ContextInfo" "" (context_value req.context)
        (field "Roles" "roles,omitempty" (slice (update_values req.roles)) no_field)))

abbrev pub create_role_value : CreateRoleRequest → Any
create_role_value req = pointer (
    struct (
      field "ContextInfo" "" (context_value req.context) (
        field "Name" "name,omitempty" (string_field req.name) (
          field "RoleDesc" "role_desc,omitempty" (string_field req.role_desc)
            (field "Actions" "actions,omitempty" (actions_value req.actions) no_field)))))

abbrev pub update_role_validator : Validator
update_role_validator = must_form (
    entry "ContextInfo" (context_info_validator false false) (
      entry "role_id" (uint64_validator (number_rule false)) (
        entry "name" (resource_name_validator true) (
          entry "role_desc" (resource_desc_validator true) (
            entry "actions" (slice_validator true 0 0 (other_validator actions_validator))
              no_entry)))))

abbrev pub update_roles_validator : Validator
update_roles_validator = must_form (
    entry "ContextInfo" (context_info_validator false false)
      (entry "roles" (slice_validator false 1 0 update_role_validator) no_entry))

abbrev pub create_role_validator : Validator
create_role_validator = must_form (
    entry "ContextInfo" (context_info_validator false false) (
      entry "name" (resource_name_validator false) (
        entry "role_desc" (resource_desc_validator false) (
          entry "actions" (slice_validator false 1 0 (other_validator actions_validator))
            no_entry))))

-- `ToRole` of an update: the slice of the actions is made, so it is never nil
unfoldable pub to_new_role : UpdateRoleRequest → NewRole
to_new_role req = record {
  id = req.id;
  name = req.name;
  role_desc = req.role_desc;
  actions = some (remove_str_duplicates req.actions);
}

unfoldable pub to_created_role : ℕ → CreateRoleRequest → Role
to_created_role now req = record {
  id = none;
  name = req.name;
  role_desc = req.role_desc;
  status = role_status_normal;
  actions = remove_str_duplicates req.actions;
  tenant_id = some (get_tenant_id req.context);
  create_time = some now;
  update_time = some now;
}

-- A role and the updates that came for it, in the order of the loop. The pointer goes to
-- `updatedRoles` once for each update that changed it; the role itself is shared.
unfoldable pub apply_updates : ℕ → List NewRole → Role → Role × List NewRole
unfolding update
apply_updates now [] role = (role, [])
apply_updates now (u ∷ us) role =
    let step = if get_id role == get_or 0 u.id then update now u role else (role, false) in
    let rest = apply_updates now us step.0 in (rest.0, if step.1 then u ∷ rest.1 else rest.1)

-- the same pointer, once for each change
abbrev pub repeated : {A B : Type 0} → A → List B → List A
repeated a [] = []
repeated a (b ∷ bs) = a ∷ repeated a bs

-- The roles of `updatedRoles`, as they are when the loops have ended. No two of the roles are one
-- object, and all updates fall into one second.
unfoldable pub updated_roles : ℕ → List NewRole → List Role → List Role
unfolding apply_updates
updated_roles now us [] = []
updated_roles now us (role ∷ roles) =
    let (last, changes) = apply_updates now us role in
    repeated last changes ++ updated_roles now us roles

pub record RoleServices (W E : Type 0) : Type 0 where
  pub now : Action W (Failure E) ℕ
  pub get_many_by_ids : ℕ → List ℕ → Action W (Failure E) (List Role)
  pub update_many : List Role → Action W (Failure E) Unit
  pub create : Role → Action W (Failure E) ℕ

module _ {W E : Type 0} (services : RoleServices W E) where
  open services use {now, get_many_by_ids, update_many, create}

  abbrev write_updated : List Role → Action W (Failure E) Unit
  write_updated [] = pure tt
  write_updated (r ∷ rs) = update_many (r ∷ rs)

  unfoldable pub update_roles : UpdateRolesRequest → Action W (Failure E) Unit
  unfolding updated_roles to_new_role
  update_roles req =
      let updates = map to_new_role req.roles in
      let role_ids = map (λ u. get_or 0 (NewRole.id u)) updates in
      check_valid (validate (update_roles_value req) update_roles_validator)
      >> get_many_by_ids (get_tenant_id req.context) role_ids
      >>= λ roles.
          raise_if (not (length role_ids == length roles)) (message "role ids not match")
          >> now
          >>= λ time. write_updated (updated_roles time updates roles)

  unfoldable pub create_role : CreateRoleRequest → Action W (Failure E) Role
  unfolding to_created_role
  create_role req =
      check_valid (validate (create_role_value req) create_role_validator) >> now >>= λ time.
      let role = to_created_role time req in
      create role >>= λ id. pure (record role { id = some id })
