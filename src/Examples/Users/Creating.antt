-- ===== src/Examples/Users/Creating.antt =====
-- Creating a user without a password.
use mirror_backend.Common.{String, false, Option, none, some, [], ◌∷◌, map, Each, ok, ◌≡◌, refl}
use mirror_backend.Action.{run_tx}
use mirror_backend.Action.Atomic.{IsSafe}
use mirror_backend.Entity.Activation.{new_activation}
use mirror_backend.Entity.User.Creation.{new_user, hash_password, extract_username_from_email}
use mirror_backend.Entity.User.Creation.Names.{IsAddress, extract_username-IsAddress}
use mirror_backend.Examples.Users.{
  World, world, services, shop, member, ann, empty_world, tx-IsAtomic,
}
use mirror_backend.Goutil.{contains_str}
use mirror_backend.Goutil.Members.{NoneTwice}
use mirror_backend.Handler.Users.Atomic.{IsOrderly, create_users-IsSafe}
use mirror_backend.Handler.Users.Creation.{
  CreateUserRequest, CreateUsersRequest, Made, to_users, duplicate_email, make_user, make_users,
  insert_all, checked_users, create_users, create_request_value, create_users_validator,
}
use mirror_backend.Handler.Users.Made.{IsMade, email_of}
use mirror_backend.Handler.Users.Created.{create_users-IsMade}
use mirror_backend.Handler.Users.Stored.{IsStored}
use mirror_backend.Text.{split}
use mirror_backend.Validator.{
  ValidateError, valid, validate_string, check_number, check_text, run_validators, rune_count,
  in_charset,
}
use mirror_backend.Validator.Form.{
  validate, validate_nil, validate_leaf, field_name, validator_of, validate_uint64,
}

abbrev any_address : String → Option ValidateError
any_address s = none

abbrev ann_request : CreateUserRequest
ann_request = record {
  email = some "ann@mail";
  display_name = none;
  password = none;
  role_id = some 2;
}

abbrev request : CreateUsersRequest
request = record { context = record { user = none; tenant = some shop }; users = ann_request ∷ [] }

abbrev made : Made
made = record {
  user = record ann { id = some 5; role = some member };
  activation = some (record {
    id = none;
    token = some "r";
    token_hash = some "r";
    target_id = some 5;
    token_type = 1;
    expire_time = some 100;
    create_time = some 100;
  });
  user_role = record {
    id = none;
    tenant_id = some 1;
    user_id = some 5;
    role_id = some 2;
    create_time = some 100;
    update_time = some 100;
  };
}

abbrev after : World
after = record { users = ann ∷ []; sessions = []; rows = 2 }

services-IsOrderly : IsOrderly world services
services-IsOrderly = record {
  now-Reads = record { same = λ w. refl };
  bcrypt-Reads = λ s. record { same = λ w. refl };
  get_users-Reads = λ id es. record { same = λ w. refl };
  get_activation-Reads = λ s t. record { same = λ w. refl };
  get_user-Reads = λ id. record { same = λ w. refl };
  tx-IsAtomic = tx-IsAtomic;
}

request-valid : validate (create_request_value request) (create_users_validator any_address) ≡ valid
unfolding validate validate_nil validate_leaf field_name validator_of validate_uint64
    validate_string check_number check_text run_validators rune_count in_charset split
request-valid = refl

answer : create_users services any_address false request empty_world ≡ (ok (made ∷ []), after)
unfolding create_users checked_users to_users new_user hash_password extract_username_from_email
    split duplicate_email contains_str insert_all make_users make_user new_activation run_tx
answer = rw (request-valid, create_users, checked_users) refl

create_users-IsSafe_example : IsSafe world (create_users services any_address false request)
create_users-IsSafe_example =
    create_users-IsSafe world services services-IsOrderly any_address request

create_users-IsMade_example :
    NoneTwice (map email_of request.users)
    × Each (IsMade services 1) request.users (made ∷ [])
    × IsStored services (made ∷ []) after
create_users-IsMade_example =
    create_users-IsMade world services tx-IsAtomic any_address false request empty_world after
      (made ∷ []) answer

extract_username-IsAddress_example :
    (extract_username_from_email "ann@mail" ≡ some "ann" → IsAddress "ann@mail" "ann")
    × (IsAddress "ann@mail" "ann" → extract_username_from_email "ann@mail" ≡ some "ann")
extract_username-IsAddress_example = extract_username-IsAddress "ann@mail" "ann"
