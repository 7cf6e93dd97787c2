-- ===== src/Entity/User/Creation.antt =====
-- `NewUser` of entity/user.go. The clock and bcrypt, which salts at random, are parameters.
pub mod Made
pub mod Names
use Prim.Native.String.{◌++◌}
use mirror_backend.Common.{
  ℕ, String, Bool, Option, none, some, List, [], ◌∷◌, ◌==◌, if◌then◌else◌, str_eq,
}
use mirror_backend.Text.{split}
use mirror_backend.Action.{Action, Failure, message, pure, raise, or_fail, ◌>>=◌}
use mirror_backend.Entity.User.{User, UserStatus}

abbrev pub user_status_pending : UserStatus
user_status_pending = 1

abbrev pub user_status_normal : UserStatus
user_status_normal = 2

abbrev pub is_pending : User → Bool
is_pending e = e.status == user_status_pending

first_of_two : List String → Option String
first_of_two (name ∷ domain ∷ []) = if str_eq name "" then none else some name
first_of_two _ = none

unfoldable pub extract_username_from_email : String → Option String
unfolding split first_of_two
extract_username_from_email email = first_of_two (split b'@' email)

module _ {W E : Type 0} (now : Action W (Failure E) ℕ)
    (bcrypt : String → Action W (Failure E) String) where
  unfoldable pub hash_password : String → Action W (Failure E) (String × UserStatus)
  hash_password password =
      if str_eq password ""
      then pure ("", user_status_pending)
      else (bcrypt password >>= λ hash. pure (hash, user_status_normal))

  unfoldable pub new_user : ℕ → String → String → String → Action W (Failure E) User
  unfolding extract_username_from_email hash_password
  new_user tenant_id email password display_name = now >>= λ now.
      or_fail (message ("invalid email: " ++ email)) (extract_username_from_email email)
      >>= λ username. hash_password password >>= λ hashed. pure (record {
        id = none;
        tenant_id = some tenant_id;
        email = some email;
        username = some username;
        password = some hashed.0;
        display_name = some display_name;
        status = hashed.1;
        create_time = some now;
        update_time = some now;
        role = none;
      })
