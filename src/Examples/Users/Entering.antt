-- ===== src/Examples/Users/Entering.antt =====
-- Logging in, and setting the first password.
use mirror_backend.Common.{String, none, some, [], ◌∷◌, ok, err, ◌≡◌, refl}
use mirror_backend.Action.{run_tx}
use mirror_backend.Entity.User.{User, update}
use mirror_backend.Entity.User.Creation.{new_user, hash_password, extract_username_from_email}
use mirror_backend.Examples.Users.{World, world, services, shop, ann, tx-IsAtomic}
use mirror_backend.Handler.Users.{
  LogInRequest, log_in, open_session, log_in_request_value, log_in_validator, std_err,
}
use mirror_backend.Handler.Users.Credentials.{
  IsLoggedIn, wrong_password, log_in-IsLoggedIn, log_in-IsRefused,
}
use mirror_backend.Handler.Users.Init.{
  InitUserRequest, init_user, user_of_token, activate, init_request_value, init_user_validator,
}
use mirror_backend.Handler.Users.Activated.{IsActivated, init_user-IsActivated}
use mirror_backend.Session.{Session, new_session}
use mirror_backend.Text.{split}
use mirror_backend.Validator.{
  valid, validate_string, check_number, check_text, run_validators, rune_count, in_charset,
}
use mirror_backend.Validator.Form.{
  validate, validate_nil, validate_leaf, field_name, validator_of, validate_uint64,
}

abbrev known : User
known = record ann { id = some 5; password = some "longsecret"; status = 2 }

abbrev before : World
before = record { users = known ∷ []; sessions = []; rows = 0 }

abbrev request : String → LogInRequest
request password = record {
  tenant_id = some 1;
  tenant_name = none;
  username = some "ann";
  password = some password;
}

abbrev unsaved : Session
unsaved = record {
  id = none;
  user_id = some 5;
  token = some "r";
  token_hash = some "r";
  expire_time = some 7776100;
  create_time = some 100;
}

abbrev session : Session
session = record unsaved { id = some 9 }

abbrev after : World
after = record before { sessions = unsaved ∷ [] }

request-valid : validate (log_in_request_value (request "longsecret")) log_in_validator ≡ valid
unfolding validate validate_nil validate_leaf field_name validator_of validate_uint64
    validate_string check_number check_text run_validators rune_count in_charset split
request-valid = refl

wrong-valid : validate (log_in_request_value (request "guess")) log_in_validator ≡ valid
unfolding validate validate_nil validate_leaf field_name validator_of validate_uint64
    validate_string check_number check_text run_validators rune_count in_charset split
wrong-valid = refl

answer : log_in services (request "longsecret") before ≡ (ok session, after)
unfolding log_in open_session new_session
answer = rw (request-valid, log_in) refl

log_in-IsLoggedIn_example : IsLoggedIn services (request "longsecret") before session
log_in-IsLoggedIn_example =
    log_in-IsLoggedIn services (request "longsecret") before after session answer

log_in-IsRefused_example : (log_in services (request "guess") before).0 ≡ err std_err
log_in-IsRefused_example =
    log_in-IsRefused services (request "guess") before wrong-valid
      (wrong_password shop before known before refl refl refl)

abbrev pending_world : World
pending_world = record { users = record ann { id = some 5 } ∷ []; sessions = []; rows = 0 }

abbrev init_request : InitUserRequest
init_request = record { token = some "t"; password = some "longsecret" }

abbrev activated : User
activated = record ann { id = some 5; password = some "longsecret"; status = 2 }

init-valid : validate (init_request_value init_request) init_user_validator ≡ valid
unfolding validate validate_nil validate_leaf field_name validator_of validate_uint64
    validate_string check_number check_text run_validators rune_count in_charset split
init-valid = refl

inner-valid :
    validate
      (log_in_request_value (record {
        tenant_id = some 1;
        tenant_name = none;
        username = some "ann";
        password = some "longsecret";
      }))
      log_in_validator
    ≡ valid
inner-valid = request-valid

initialised : init_user services init_request pending_world ≡ (
  ok (activated, session),
  record { users = activated ∷ []; sessions = unsaved ∷ []; rows = 0 },
)
unfolding init_user user_of_token activate new_user hash_password extract_username_from_email split
    update log_in open_session new_session run_tx
initialised = rw (init-valid, inner-valid, init_user, user_of_token, activate, log_in) refl

init_user-IsActivated_example : IsActivated world services init_request activated session
init_user-IsActivated_example =
    init_user-IsActivated world services tx-IsAtomic init_request pending_world
      (record { users = activated ∷ []; sessions = unsaved ∷ []; rows = 0 }) activated session
      initialised
