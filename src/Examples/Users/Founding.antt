-- ===== src/Examples/Users/Founding.antt =====
-- Making a tenant with its first user, and a sender.
use mirror_backend.Common.{String, Bool, true, false, none, some, [], ◌∷◌, ok, err, ◌≡◌, refl}
use mirror_backend.Action.{Failure, message, run_tx}
use mirror_backend.Entity.Activation.{new_activation}
use mirror_backend.Entity.Tenant.{Tenant, Sender, get_email}
use mirror_backend.Entity.User.Creation.{new_user, hash_password, extract_username_from_email}
use mirror_backend.Examples.Users.{
  World, world, services, shop, member, ann, empty_world, tx-IsAtomic,
}
use mirror_backend.Goutil.{contains_str}
use mirror_backend.Handler.Users.Creation.{
  CreateUsersRequest, Made, to_users, duplicate_email, make_user, make_users, insert_all,
  checked_users, create_users, create_request_value, create_users_validator,
}
use mirror_backend.Handler.Tenants.Founding as Founding
use mirror_backend.Handler.Tenants.{TenantServices, CreateTenantRequest, CreateSenderRequest}
use mirror_backend.Handler.Tenants.Founding.{
  create_tenant, create_tenant_value, create_tenant_validator, add_users, to_tenant,
}
use mirror_backend.Handler.Tenants.Sending.{
  create_sender, create_sender_value, create_sender_validator, to_sender,
}
use mirror_backend.Action.Atomic.{IsSafe}
use mirror_backend.Handler.Tenants.Atomic.{create_tenant-IsSafe}
use mirror_backend.Handler.Tenants.Domain.{IsVerified, create_sender-IsVerified}
use mirror_backend.Handler.Tenants.Users.{IsFounded, create_tenant-IsFounded}
use mirror_backend.Text.{split}
use mirror_backend.Validator.{
  valid, validate_string, check_number, check_text, run_validators, rune_count, in_charset,
}
use mirror_backend.Validator.Form.{
  validate, validate_nil, validate_leaf, field_name, validator_of, validate_uint64,
}

abbrev is_message : Failure String → Bool
is_message (message m) = true
is_message _ = false

abbrev tenants : TenantServices World String
tenants = record {
  users = services;
  matches_domain = λ s. true;
  matches_local_part = λ s. true;
  parse_address = λ s. none;
  is_tenant_not_found = is_message;
  is_sender_not_found = is_message;
  make_domain = λ s w. (ok "records", w);
  get_domain_config = λ s w. (ok "records", w);
  authenticate_domain = λ s w. (ok true, w);
  make_sender = λ name email w. (ok tt, w);
  create_folder = λ s w. (ok "f", w);
  create_store = λ s w. (ok tt, w);
  insert_tenant = λ t w. (ok 1, w);
  update_tenant = λ t w. (ok tt, w);
  insert_roles = λ rs w. (ok (2 ∷ 3 ∷ []), w);
  get_sender = λ id name part w. (err (message "sender not found"), w);
  insert_sender = λ s w. (ok 4, w);
  get_senders = λ id w. (ok [], w);
}

abbrev request : CreateTenantRequest
request = record {
  name = some "shop";
  users =
      record { email = some "ann@mail"; display_name = none; password = none; role_id = none } ∷ [];
  domain = none;
}

abbrev founded : Tenant
founded = record {
  id = some 1;
  name = some "shop";
  status = 1;
  ext_info =
      some
        (record { folder_id = "f"; domain = ""; dns_records = none; is_domain_valid = some false });
  create_time = some 100;
  update_time = some 100;
}

abbrev made : Made
made = record {
  user = record ann { id = some 5; role = some member };
  activation = some (record {
    id = none;
    token = some "r";
    token_hash = some "r";
    target_id = some 5;
    token_type = 1;
    expire_time = some 100;
    create_time = some 100;
  });
  user_role = record {
    id = none;
    tenant_id = some 1;
    user_id = some 5;
    role_id = some 2;
    create_time = some 100;
    update_time = some 100;
  };
}

abbrev after : World
after = record { users = ann ∷ []; sessions = []; rows = 2 }

abbrev users_request : CreateUsersRequest
users_request = record {
  context = record { user = none; tenant = some founded };
  users =
      record { email = some "ann@mail"; display_name = none; password = none; role_id = some 2 }
      ∷ [];
}

tenant-valid : validate (create_tenant_value request) (create_tenant_validator (λ s. true)) ≡ valid
unfolding validate validate_nil validate_leaf field_name validator_of validate_uint64
    validate_string check_number check_text run_validators rune_count in_charset split
tenant-valid = refl

users-valid :
    validate (create_request_value users_request) (create_users_validator (λ s. none)) ≡ valid
unfolding validate validate_nil validate_leaf field_name validator_of validate_uint64
    validate_string check_number check_text run_validators rune_count in_charset split
users-valid = refl

users_answer :
    create_users services (λ s. none) true users_request empty_world ≡ (ok (made ∷ []), after)
unfolding create_users checked_users to_users new_user hash_password extract_username_from_email
    split duplicate_email contains_str insert_all make_users make_user new_activation run_tx
users_answer = rw (users-valid, create_users, checked_users) refl

answer : create_tenant tenants request empty_world ≡ (ok (founded, made ∷ []), after)
unfolding create_tenant Founding.insert_all add_users to_tenant run_tx
answer = rw (tenant-valid, create_tenant, users_answer) refl

create_tenant-IsFounded_example : IsFounded world tenants request founded (made ∷ []) after
create_tenant-IsFounded_example =
    create_tenant-IsFounded world tenants tx-IsAtomic request empty_world after founded (made ∷ [])
      answer

abbrev sender_request : CreateSenderRequest
sender_request = record {
  context = record { user = some (record ann { id = some 5 }); tenant = some shop };
  name = some "News";
  local_part = some "news";
}

abbrev sender : Sender
sender = record {
  id = some 4;
  tenant_id = some 1;
  name = some "News";
  local_part = some "news";
  create_time = some 100;
  update_time = some 100;
  email = some "news@shop.com";
}

sender-valid :
    validate (create_sender_value sender_request) (create_sender_validator (λ s. true)) ≡ valid
unfolding validate validate_nil validate_leaf field_name validator_of validate_uint64
    validate_string check_number check_text run_validators rune_count in_charset split
sender-valid = refl

sender_answer : create_sender tenants sender_request empty_world ≡ (ok sender, empty_world)
unfolding create_sender to_sender get_email
sender_answer = rw (sender-valid, create_sender) refl

create_sender-IsVerified_example : IsVerified tenants sender_request sender
create_sender-IsVerified_example =
    create_sender-IsVerified tenants sender_request empty_world empty_world sender sender_answer

create_tenant-IsSafe_example : IsSafe world (create_tenant tenants request)
create_tenant-IsSafe_example =
    create_tenant-IsSafe world tenants request (λ name. record { same = λ w. refl }) tx-IsAtomic
