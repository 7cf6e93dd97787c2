-- ===== src/Handler/Tenants/Founding.antt =====
-- `CreateTenant` of handler/tenant.go.
use mirror_backend.Common.{
  ℕ, String, Bool, true, false, Option, none, some, List, [], ◌∷◌, map, if◌then◌else◌, get_or,
  str_eq,
}
use mirror_backend.Action.{Action, Failure, message, panicked, pure, or_fail, ◌>>=◌, ◌>>◌, run_tx}
use mirror_backend.Entity.Tenant.{Tenant, tenant_status_normal}
use mirror_backend.Entity.User.{Role}
use mirror_backend.Handler.Values.{check_valid, string_field}
use mirror_backend.Handler.Users.Creation.{CreateUserRequest, Made, create_users, first_id}
use mirror_backend.Validator.{Any, pointer, struct, no_field, field, Validator, no_entry, entry}
use mirror_backend.Validator.Form.{validate}
use mirror_backend.Validator.Requests.{must_form, resource_name_validator, domain_validator}
use mirror_backend.Handler.Tenants.{TenantServices, CreateTenantRequest, expect_missing}

-- The form has no rule for the users.
abbrev pub create_tenant_value : CreateTenantRequest → Any
create_tenant_value req = pointer (
    struct (
      field "Name" "name,omitempty" (string_field req.name)
        (field "Domain" "domain,omitempty" (string_field req.domain) no_field)))

abbrev pub create_tenant_validator : (String → Bool) → Validator
create_tenant_validator matches = must_form (
    entry "name" (resource_name_validator false)
      (entry "domain" (domain_validator matches true) no_entry))

unfoldable pub to_tenant : ℕ → CreateTenantRequest → String → Option String → Tenant
to_tenant now req folder_id dns_records = record {
  id = none;
  name = req.name;
  status = tenant_status_normal;
  ext_info = some (record {
    folder_id = folder_id;
    domain = get_or "" req.domain;
    dns_records = dns_records;
    is_domain_valid = some false;
  });
  create_time = some now;
  update_time = some now;
}

abbrev default_role : Tenant → String → String → List String → Role
default_role tenant name role_desc actions = record {
  id = none;
  name = some name;
  role_desc = some role_desc;
  status = 1;
  actions = actions;
  tenant_id = tenant.id;
  create_time = tenant.create_time;
  update_time = tenant.update_time;
}

abbrev pub default_roles : Tenant → List Role
default_roles tenant =
    default_role tenant "Admin" "Admin role" ("edit_role" ∷ "edit_user" ∷ [])
    ∷ default_role tenant "Member" "Member role" []
    ∷ []

-- the users' role is set to Admin
abbrev pub with_role : ℕ → CreateUserRequest → CreateUserRequest
with_role role_id req = record req { role_id = some role_id }

-- roleIDs[0] is read only where there is a user.
abbrev pub role_for :
    {W E : Type 0} → List CreateUserRequest → List ℕ → Action W (Failure E) (List CreateUserRequest)
role_for [] role_ids = pure []
role_for (u ∷ us) role_ids =
    or_fail panicked (first_id role_ids) >>= λ id. pure (map (with_role id) (u ∷ us))

module _ {W E : Type 0} (services : TenantServices W E) where
  open services use {
    users, matches_domain, matches_local_part, parse_address, is_tenant_not_found,
    is_sender_not_found, make_domain, get_domain_config, authenticate_domain, make_sender,
    create_folder, create_store, insert_tenant, update_tenant, insert_roles, get_sender,
    insert_sender, get_senders,
  }
  open users use {now, tx_service, get_tenant_by_name}

  abbrev pub some_domain : String → Action W (Failure E) (Option String)
  some_domain domain =
      if str_eq domain ""
      then pure none
      else (make_domain domain >>= λ records. pure (some records))

  -- the rest of what the transaction of `CreateTenant` runs, from the tenant's row on
  unfoldable pub add_users :
      Tenant → List CreateUserRequest → Action W (Failure E) (Tenant × List Made)
  add_users tenant requests =
      create_store (get_or "" tenant.name) >> insert_roles (default_roles tenant) >>= λ role_ids.
      role_for requests role_ids >>= λ with_roles.
      create_users users parse_address true
        (record { context = record { user = none; tenant = some tenant }; users = with_roles })
      >>= λ made. pure (tenant, made)

  -- the function that the transaction of `CreateTenant` runs
  unfoldable pub insert_all : CreateTenantRequest → Action W (Failure E) (Tenant × List Made)
  unfolding to_tenant add_users
  insert_all req = some_domain (get_or "" req.domain) >>= λ dns_records.
      create_folder (get_or "" req.name) >>= λ folder_id. now >>= λ time.
      let new = to_tenant time req folder_id dns_records in
      insert_tenant new >>= λ tenant_id. add_users (record new { id = some tenant_id }) req.users

  unfoldable pub create_tenant : CreateTenantRequest → Action W (Failure E) (Tenant × List Made)
  unfolding insert_all
  create_tenant req =
      check_valid (validate (create_tenant_value req) (create_tenant_validator matches_domain))
      >> expect_missing (get_tenant_by_name (get_or "" req.name)) is_tenant_not_found
          (message "tenant already exists")
      >> run_tx tx_service false (insert_all req)
