-- ===== src/Handler/Tenants.antt =====
-- handler/tenant.go: its requests and what it calls. The repositories, the e-mail service, the file store and the search engine are
-- parameters.
pub mod Founding
pub mod Sending
pub mod Atomic
pub mod Domain
pub mod Users
use mirror_backend.Common.{
  ℕ, String, Bool, true, false, not, ◌||◌, Option, none, some, List, [], ◌∷◌, map, if◌then◌else◌,
  get_or, str_eq, Result, ok, err,
}
use mirror_backend.Action.{
  Action, Failure, message, panicked, pure, raise, raise_if, or_fail, ◌>>=◌, ◌>>◌, run_tx,
}
use mirror_backend.Entity.Tenant.{
  Tenant, TenantExtInfo, Sender, empty_ext_info, get_email, tenant_status_unknown,
  tenant_status_normal, update,
}
use mirror_backend.Entity.User.{Role}
use mirror_backend.Handler.Values.{
  ContextInfo, check_valid, get_tenant_id, string_field, context_value,
}
use mirror_backend.Handler.Users.{Services, context_request_value, context_request_validator}
use mirror_backend.Handler.Users.Creation.{
  CreateUserRequest, CreateUsersRequest, Made, create_users, first_id,
}
use mirror_backend.Validator.{
  Any, pointer, struct, no_field, field, ValidateError, custom, Validator, string_validator,
  no_entry, entry,
}
use mirror_backend.Validator.Form.{validate}
use mirror_backend.Validator.Requests.{
  must_form, string_rule, resource_name_validator, domain_validator, context_info_validator,
}

-- `users` is a slice of pointers; that none of them is nil is a restriction of the model.
pub record CreateTenantRequest : Type 0 where
  pub name : Option String
  pub users : List CreateUserRequest
  pub domain : Option String

pub record CreateDomainRequest : Type 0 where
  pub context : ContextInfo
  pub domain : Option String

pub record CreateSenderRequest : Type 0 where
  pub context : ContextInfo
  pub name : Option String
  pub local_part : Option String

-- what the handler calls beside the handler of users
pub record TenantServices (W E : Type 0) : Type 1 where
  pub users : Services W E
  -- what regular expressions and `mail.ParseAddress` accept
  pub matches_domain : String → Bool
  pub matches_local_part : String → Bool
  pub parse_address : String → Option ValidateError
  -- errors.Is(err, repo.ErrTenantNotFound) and repo.ErrSenderNotFound
  pub is_tenant_not_found : Failure E → Bool
  pub is_sender_not_found : Failure E → Bool
  pub make_domain : String → Action W (Failure E) String
  pub get_domain_config : String → Action W (Failure E) String
  pub authenticate_domain : String → Action W (Failure E) Bool
  pub make_sender : String → String → Action W (Failure E) Unit
  pub create_folder : String → Action W (Failure E) String
  pub create_store : String → Action W (Failure E) Unit
  pub insert_tenant : Tenant → Action W (Failure E) ℕ
  pub update_tenant : Tenant → Action W (Failure E) Unit
  pub insert_roles : List Role → Action W (Failure E) (List ℕ)
  pub get_sender : ℕ → String → String → Action W (Failure E) Sender
  pub insert_sender : Sender → Action W (Failure E) ℕ
  pub get_senders : ℕ → Action W (Failure E) (List Sender)

-- an answer that is wanted to be the error of a missing row
abbrev pub missing_of : {W E A : Type 0} → (E → Bool) → E → Result E A × W → Result E Unit × W
missing_of is_missing conflict (ok a, w) = (err conflict, w)
missing_of is_missing conflict (err e, w) = if is_missing e then (ok tt, w) else (err e, w)

abbrev pub expect_missing : {W E A : Type 0} → Action W E A → (E → Bool) → E → Action W E Unit
expect_missing m is_missing conflict w = missing_of is_missing conflict (m w)

-- an answer whose error is only logged, with the value that comes beside it
abbrev pub value_of : {W E A : Type 0} → A → Result E A × W → Result E A × W
value_of d (ok a, w) = (ok a, w)
value_of d (err e, w) = (ok d, w)

abbrev pub or_default : {W E A : Type 0} → Action W E A → A → Action W E A
or_default m d w = value_of d (m w)

-- A nil tenant, and a tenant with no `ExtInfo`, panic.
abbrev pub tenant_of : {W E : Type 0} → ContextInfo → Action W (Failure E) Tenant
tenant_of c = or_fail panicked c.tenant

abbrev pub info_of : {W E : Type 0} → Tenant → Action W (Failure E) TenantExtInfo
info_of tenant = or_fail panicked tenant.ext_info
