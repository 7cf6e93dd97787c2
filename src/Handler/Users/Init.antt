-- ===== src/Handler/Users/Init.antt =====
-- `InitUser` of handler/user.go: a pending user sets a password by the token of an activation.
use mirror_backend.Common.{String, false, not, Option, none, get_or}
use mirror_backend.Action.{Action, Failure, message, pure, or_fail, raise_if, ◌>>=◌, ◌>>◌, run_tx}
use mirror_backend.Entity.Activation.{token_type_user}
use mirror_backend.Entity.User.{User, get_tenant_id, update}
use mirror_backend.Entity.User.Creation.{is_pending, new_user}
use mirror_backend.Handler.Values.{check_valid, string_field}
use mirror_backend.Handler.Users.{Services, LogInRequest, log_in}
use mirror_backend.Session.{Session}
use mirror_backend.Validator.{
  Any, pointer, struct, no_field, field, Validator, string_validator, no_entry, entry,
}
use mirror_backend.Validator.Form.{validate}
use mirror_backend.Validator.Requests.{must_form, string_rule, password_validator}

pub record InitUserRequest : Type 0 where
  pub token : Option String
  pub password : Option String

abbrev pub init_request_value : InitUserRequest → Any
init_request_value req = pointer (
    struct (
      field "Token" "token,omitempty" (string_field req.token)
        (field "Password" "password,omitempty" (string_field req.password) no_field)))

abbrev pub init_user_validator : Validator
init_user_validator = must_form (
    entry "token" (string_validator (string_rule false))
      (entry "password" (password_validator false) no_entry))

module _ {W E : Type 0} (services : Services W E) where
  open services use {tokens, now, bcrypt, tx_service, get_user_by_id, update_user, get_activation}

  abbrev pub log_in_request : User → InitUserRequest → LogInRequest
  log_in_request user req = record {
    tenant_id = user.tenant_id;
    tenant_name = none;
    username = user.username;
    password = req.password;
  }

  -- the function that the transaction runs
  unfoldable pub activate : InitUserRequest → User → Action W (Failure E) (User × Session)
  activate req user =
      new_user now bcrypt (get_tenant_id user) (get_or "" user.email) (get_or "" req.password)
        (get_or "" user.display_name)
      >>= λ fresh. now >>= λ time.
          let user' = (update time fresh.status fresh.password user).0 in
          update_user user' >> log_in services (log_in_request user' req) >>= λ session.
          pure (user', session)

  -- the user whom the token is for
  unfoldable pub user_of_token : InitUserRequest → Action W (Failure E) User
  user_of_token req =
      check_valid (validate (init_request_value req) init_user_validator)
      >> or_fail (message "illegal base64 data") (tokens.base64_decode (get_or "" req.token))
      >>= λ token. get_activation (tokens.sha256 token) token_type_user >>= λ act.
          get_user_by_id (get_or 0 act.target_id) >>= λ user.
          raise_if (not (is_pending user)) (message "invalid token/user") >> pure user

  unfoldable pub init_user : InitUserRequest → Action W (Failure E) (User × Session)
  unfolding user_of_token activate
  init_user req = user_of_token req >>= λ user. run_tx tx_service false (activate req user)
