-- ===== src/Handler/Users/Creation.antt =====
-- `CreateUsers` of handler/user.go.
pub mod Invitations
use Prim.Native.String.{◌++◌}
use mirror_backend.Common.{
  ℕ, zero, suc, String, Bool, false, true, Option, none, some, List, [], ◌∷◌, map, if◌then◌else◌,
  get_or, ltb, length,
}
use mirror_backend.Action.{
  Action, Failure, message, panicked, pure, raise, or_fail, raise_if, raise_some, ◌>>=◌, ◌>>◌,
  run_tx,
}
use mirror_backend.Entity.Activation.{Activation, token_type_user, new_activation}
use mirror_backend.Entity.User.{User, Role, UserRole}
use mirror_backend.Entity.User.Creation.{is_pending, new_user}
use mirror_backend.Goutil.{contains_str}
use mirror_backend.Handler.Values.{
  ContextInfo, check_valid, get_tenant_id, uint64_field, string_field, context_value,
}
use mirror_backend.Handler.Users.{Services}
use mirror_backend.Text.Joining.{join}
use mirror_backend.Validator.{
  Any, pointer, Items, no_item, item, slice, struct, no_field, field, ValidateError, Validator,
  slice_validator, uint64_validator, no_entry, entry,
}
use mirror_backend.Validator.Form.{validate}
use mirror_backend.Validator.Requests.{
  must_form, number_rule, password_validator, display_name_validator, email_validator,
  context_info_validator,
}

pub record CreateUserRequest : Type 0 where
  pub email : Option String
  pub display_name : Option String
  pub password : Option String
  pub role_id : Option ℕ

pub record CreateUsersRequest : Type 0 where
  pub context : ContextInfo
  pub users : List CreateUserRequest

abbrev pub get_email : User → String
get_email u = get_or "" u.email

abbrev create_user_value : CreateUserRequest → Any
create_user_value req = pointer (
    struct (
      field "Email" "email,omitempty" (string_field req.email) (
        field "DisplayName" "display_name,omitempty" (string_field req.display_name) (
          field "Password" "password,omitempty" (string_field req.password)
            (field "RoleID" "role_id,omitempty" (uint64_field req.role_id) no_field)))))

abbrev create_user_values : List CreateUserRequest → Items
create_user_values [] = no_item
create_user_values (r ∷ rs) = item (create_user_value r) (create_user_values rs)

abbrev pub create_request_value : CreateUsersRequest → Any
create_request_value req = pointer (
    struct (
      field "ContextInfo" "" (context_value req.context)
        (field "Users" "users,omitempty" (slice (create_user_values req.users)) no_field)))

abbrev pub create_user_validator : (String → Option ValidateError) → Validator
create_user_validator parse_address = must_form (
    entry "email" (email_validator parse_address false) (
      entry "display_name" (display_name_validator true) (
        entry "password" (password_validator true)
          (entry "role_id" (uint64_validator (number_rule false)) no_entry))))

abbrev pub create_users_validator : (String → Option ValidateError) → Validator
create_users_validator parse_address = must_form (
    entry "ContextInfo" (context_info_validator false true)
      (entry "users" (slice_validator false 1 5 (create_user_validator parse_address)) no_entry))

-- the first email that is there twice; `met` is the map of the loop
unfoldable pub duplicate_email : List String → List User → Option String
duplicate_email met [] = none
duplicate_email met (u ∷ us) =
    let rest = duplicate_email (get_email u ∷ met) us in
    if contains_str met (get_email u) then some (get_email u) else rest

abbrev pub existing_error : {E : Type 0} → List User → Failure E
existing_error exist = message ("emails already exist: [" ++ join " " (map get_email exist) ++ "]")

-- userIDs[i] where the loop is at the i-th user
abbrev pub first_id : List ℕ → Option ℕ
first_id [] = none
first_id (id ∷ ids) = some id

abbrev pub rest_of : List ℕ → List ℕ
rest_of [] = []
rest_of (id ∷ ids) = ids

-- what the loop in the transaction has made for one user: the user with ID and role, the
-- activation if the user is pending, and the row of the role
pub record Made : Type 0 where
  pub user : User
  pub activation : Option Activation
  pub user_role : UserRole

abbrev pub activations : List Made → List Activation
activations [] = []
activations (m ∷ ms) = elim (m.activation) [
  | none ↦ activations ms
  | some act ↦ act ∷ activations ms
]

-- the pending users, each with its activation
abbrev pub pending_users : List Made → List (User × Activation)
pending_users [] = []
pending_users (m ∷ ms) = elim (m.activation) [
  | none ↦ pending_users ms
  | some act ↦ (m.user, act) ∷ pending_users ms
]

abbrev pub duplicate_error : {E : Type 0} → Option String → Option (Failure E)
duplicate_error none = none
duplicate_error (some email) = some (message ("duplicate user email found: " ++ email))

module _ {W E : Type 0} (services : Services W E) where
  open services use {
    tokens, now, random, bcrypt, tx_service, get_users_by_emails, insert_users, insert_activations,
    get_role, insert_user_roles,
  }

  unfoldable pub to_users : ℕ → List CreateUserRequest → Action W (Failure E) (List User)
  to_users tenant_id [] = pure []
  to_users tenant_id (r ∷ rs) =
      new_user now bcrypt tenant_id (get_or "" r.email) (get_or "" r.password)
        (get_or "" r.display_name)
      >>= λ user. to_users tenant_id rs >>= λ users. pure (user ∷ users)

  abbrev pub activation_for : User → ℕ → Action W (Failure E) (Option Activation)
  activation_for u id =
      if is_pending u
      then (new_activation tokens now random id token_type_user >>= λ act. pure (some act))
      else pure none

  -- one turn of the loop; the map `roles` is new in each turn, so it never saves a call
  unfoldable pub make_user : ℕ → User → CreateUserRequest → ℕ → Action W (Failure E) Made
  make_user tenant_id u req id = activation_for u id >>= λ act.
      get_role tenant_id (get_or 0 req.role_id) >>= λ role. pure (record {
        user = record u { id = some id; role = some role };
        activation = act;
        user_role = record {
          id = none;
          tenant_id = u.tenant_id;
          user_id = some id;
          role_id = some (get_or 0 req.role_id);
          create_time = u.create_time;
          update_time = u.update_time;
        };
      })

  -- the loop over the users, each beside its request
  unfoldable pub make_users :
      ℕ → List User → List CreateUserRequest → List ℕ → Action W (Failure E) (List Made)
  make_users tenant_id [] reqs ids = pure []
  make_users tenant_id (u ∷ us) [] ids = raise panicked
  make_users tenant_id (u ∷ us) (req ∷ reqs) ids = or_fail panicked (first_id ids) >>= λ id.
      make_user tenant_id u req id >>= λ made.
      make_users tenant_id us reqs (rest_of ids) >>= λ more. pure (made ∷ more)

  -- `if len(rows) != 0 { ... }`
  abbrev pub unless_empty :
      {A : Type 0} → (List A → Action W (Failure E) Unit) → List A → Action W (Failure E) Unit
  unless_empty insert [] = pure tt
  unless_empty insert (a ∷ rows) = insert (a ∷ rows)

  -- the function that the transaction runs
  unfoldable pub insert_all :
      ℕ → List User → List CreateUserRequest → Action W (Failure E) (List Made)
  unfolding make_users
  insert_all tenant_id users reqs = insert_users users >>= λ ids.
      make_users tenant_id users reqs ids >>= λ made.
      unless_empty insert_user_roles (map Made.user_role made)
      >> unless_empty insert_activations (activations made)
      >> pure made

  -- what is checked before the transaction
  unfoldable pub checked_users :
      (String → Option ValidateError) → CreateUsersRequest → Action W (Failure E) (List User)
  unfolding to_users
  checked_users parse_address req =
      check_valid (validate (create_request_value req) (create_users_validator parse_address))
      >> to_users (get_tenant_id req.context) req.users
      >>= λ users.
          raise_some (duplicate_error (duplicate_email [] users))
          >> get_users_by_emails (get_tenant_id req.context) (map get_email users)
          >>= λ exist. raise_if (ltb 0 (length exist)) (existing_error exist) >> pure users

  -- `has_tx` where the handler of tenants calls it in a transaction of its own
  unfoldable pub create_users :
      (String → Option ValidateError) → Bool → CreateUsersRequest → Action W (Failure E) (List Made)
  unfolding checked_users insert_all
  create_users parse_address has_tx req = checked_users parse_address req >>= λ users.
      run_tx tx_service has_tx (insert_all (get_tenant_id req.context) users req.users)
