-- ===== src/Handler/Users.antt =====
-- handler/user.go: what the handlers of users call, and `LogIn`, `LogOut` and `Me`. The
-- repositories, the clock, the random source and bcrypt are parameters.
pub mod Atomic
pub mod Emails
pub mod Stored
pub mod Created
pub mod Made
pub mod Credentials
pub mod Passwords
pub mod Activated
pub mod Init
pub mod Creation
use mirror_backend.Common.{
  ℕ, String, Bool, false, true, not, Option, none, some, List, if◌then◌else◌, get_or,
}
use mirror_backend.Action.{
  Action, Failure, invalid_request, message, pure, raise, ◌>>=◌, ◌>>◌, or_raise, raise_if,
  Transactions,
}
use mirror_backend.Entity.Activation.{Activation, TokenType}
use mirror_backend.Entity.Tenant.{Tenant}
use mirror_backend.Entity.User.{User, Role, UserRole, get_password}
use mirror_backend.Handler.Values.{
  check_valid, ContextInfo, get_user_id, uint64_field, string_field, context_value,
}
use mirror_backend.Session.{Session, Tokens, new_session}
use mirror_backend.Validator.{
  Any, pointer, struct, no_field, field, Verdict, valid, Validator, string_validator,
  uint64_validator, no_entry, entry,
}
use mirror_backend.Validator.Form.{validate}
use mirror_backend.Validator.Requests.{must_form, number_rule, string_rule, context_info_validator}

-- the fields of `userHandler` and the functions that its methods call
pub record Services (W E : Type 0) : Type 1 where
  pub tokens : Tokens
  pub now : Action W (Failure E) ℕ
  pub random : ℕ → Action W (Failure E) String
  pub bcrypt : String → Action W (Failure E) String
  -- the hash comes first
  pub compare_bcrypt : String → String → Bool
  pub tx_service : Transactions W (Failure E)
  pub get_tenant_by_id : ℕ → Action W (Failure E) Tenant
  pub get_tenant_by_name : String → Action W (Failure E) Tenant
  pub get_user_by_id : ℕ → Action W (Failure E) User
  pub get_user_by_username : ℕ → String → Action W (Failure E) User
  pub get_users_by_emails : ℕ → List String → Action W (Failure E) (List User)
  pub insert_users : List User → Action W (Failure E) (List ℕ)
  pub update_user : User → Action W (Failure E) Unit
  pub get_activation : String → TokenType → Action W (Failure E) Activation
  pub insert_activations : List Activation → Action W (Failure E) Unit
  pub get_role : ℕ → ℕ → Action W (Failure E) Role
  pub insert_user_roles : List UserRole → Action W (Failure E) Unit
  pub insert_session : Session → Action W (Failure E) ℕ
  pub delete_sessions : ℕ → Action W (Failure E) Unit

-- of LogOutRequest and of GetUserRequest
abbrev pub context_request_value : ContextInfo → Any
context_request_value c = pointer (struct (field "ContextInfo" "" (context_value c) no_field))

abbrev pub context_request_validator : Validator
context_request_validator =
    must_form (entry "ContextInfo" (context_info_validator false false) no_entry)

pub record LogInRequest : Type 0 where
  pub tenant_id : Option ℕ
  pub tenant_name : Option String
  pub username : Option String
  pub password : Option String

abbrev pub log_in_request_value : LogInRequest → Any
log_in_request_value req = pointer (
    struct (
      field "TenantID" "tenant_id,omitempty" (uint64_field req.tenant_id) (
        field "TenantName" "tenant_name,omitempty" (string_field req.tenant_name) (
          field "Username" "username,omitempty" (string_field req.username)
            (field "Password" "password,omitempty" (string_field req.password) no_field)))))

abbrev pub log_in_validator : Validator
log_in_validator = must_form (
    entry "tenant_id" (uint64_validator (number_rule true)) (
      entry "tenant_name" (string_validator (string_rule true)) (
        entry "username" (string_validator (string_rule false))
          (entry "password" (string_validator (string_rule false)) no_entry))))

abbrev pub session_byte_length : ℕ
session_byte_length = 32

abbrev pub std_err : {E : Type 0} → Failure E
std_err = message "incorrect credentials"

module _ {W E : Type 0} (services : Services W E) where
  open services use {
    tokens, now, random, compare_bcrypt, get_tenant_by_id, get_tenant_by_name, get_user_by_username,
    insert_session, delete_sessions,
  }

  unfoldable pub log_out : ContextInfo → Action W (Failure E) Unit
  log_out c =
      check_valid (validate (context_request_value c) context_request_validator)
      >> delete_sessions (get_user_id c)

  -- the user of the context, which may be nil
  unfoldable pub me : ContextInfo → Action W (Failure E) (Option User)
  me c = check_valid (validate (context_request_value c) context_request_validator) >> pure c.user

  abbrev pub compare_password : User → String → Bool
  compare_password user input = compare_bcrypt (get_password user) input

  abbrev pub tenant_of : Option ℕ → Option String → Action W (Failure E) Tenant
  tenant_of (some id) name = get_tenant_by_id id
  tenant_of none name = get_tenant_by_name (get_or "" name)

  -- the session of the user, with the ID that the table gives it
  unfoldable pub open_session : User → Action W (Failure E) Session
  open_session user = now >>= λ now. random session_byte_length >>= λ random.
      let sess = new_session tokens now random (get_or 0 user.id) in
      insert_session sess >>= λ id. pure (record sess { id = some id })

  unfoldable pub log_in : LogInRequest → Action W (Failure E) Session
  unfolding open_session
  log_in req =
      check_valid (validate (log_in_request_value req) log_in_validator)
      >> or_raise (tenant_of req.tenant_id req.tenant_name) std_err
      >>= λ tenant.
          or_raise (get_user_by_username (get_or 0 tenant.id) (get_or "" req.username)) std_err
          >>= λ user.
              raise_if (not (compare_password user (get_or "" req.password))) std_err
              >> open_session user
