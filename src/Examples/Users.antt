-- ===== src/Examples/Users.antt =====
-- Users, log ins and tenants over a small world.
pub mod Creating
pub mod Entering
pub mod Founding
use Prim.Native.String.{◌++◌}
use mirror_backend.Common.{
  ℕ, ◌+◌, String, Bool, true, false, not, Option, none, some, List, [], ◌∷◌, ◌++◌ as append, length,
  map, if◌then◌else◌, str_eq, get_or, Result, ok, err, ◌≡◌, refl,
}
use mirror_backend.Action.{Action, Failure, message, pure, raise, run_tx}
use mirror_backend.Action.Atomic.{Reads, IsSafe, IsAtomic}
use mirror_backend.Entity.Activation.{Activation, new_activation}
use mirror_backend.Entity.Tenant.{Tenant, TenantExtInfo, Sender, get_email, update}
use mirror_backend.Entity.User.{User, Role, UserRole}
use mirror_backend.Entity.User.Creation.{new_user, hash_password, extract_username_from_email}
use mirror_backend.Handler.Values.{ContextInfo}
use mirror_backend.Handler.Users.{
  Services, LogInRequest, log_in, open_session, log_in_request_value, log_in_validator,
}
use mirror_backend.Session.{Session, Tokens, new_session}

pub record World : Type 0 where
  pub users : List User
  pub sessions : List Session
  pub rows : ℕ

abbrev Call : Type 0 → Type 0
Call A = Action World (Failure String) A

abbrev pub world : World → World
world w = w

abbrev roll_back :
    {A : Type 0} → World → Result (Failure String) A × World → Result (Failure String) A × World
roll_back w (ok a, w') = (ok a, w')
roll_back w (err e, w') = (err e, w)

abbrev add_row : World → World
add_row w = record w { rows = w.rows + 1 }

abbrev first_user : World → Option User
first_user w = elim (w.users) [ [] ↦ none | u ∷ us ↦ some u ]

abbrev found_user : Option User → Result (Failure String) User
found_user none = err (message "user not found")
found_user (some u) = ok u

abbrev ids_from : ℕ → List User → List ℕ
ids_from n [] = []
ids_from n (u ∷ us) = n ∷ ids_from (n + 1) us

abbrev pub member : Role
member = record {
  id = some 2;
  name = some "Member";
  role_desc = some "Member role";
  status = 1;
  actions = [];
  tenant_id = some 1;
  create_time = some 0;
  update_time = some 0;
}

abbrev pub shop : Tenant
shop = record {
  id = some 1;
  name = some "shop";
  status = 1;
  ext_info = some (record {
    folder_id = "f";
    domain = "shop.com";
    dns_records = none;
    is_domain_valid = some true;
  });
  create_time = some 0;
  update_time = some 0;
}

abbrev activation : Activation
activation = record {
  id = some 1;
  token = none;
  token_hash = some "t";
  target_id = some 5;
  token_type = 1;
  expire_time = some 0;
  create_time = some 0;
}

abbrev plain_tokens : Tokens
plain_tokens = record { base64_encode = λ s. s; base64_decode = λ s. some s; sha256 = λ s. s }

abbrev pub services : Services World String
services = record {
  tokens = plain_tokens;
  now = λ w. (ok 100, w);
  random = λ n w. (ok "r", w);
  bcrypt = λ p w. (ok p, w);
  compare_bcrypt = str_eq;
  tx_service = record { transaction = λ m w. roll_back w (m w) };
  get_tenant_by_id = λ id w. (ok shop, w);
  get_tenant_by_name = λ name w. (err (message "tenant not found"), w);
  get_user_by_id = λ id w. (found_user (first_user w), w);
  get_user_by_username = λ id name w. (found_user (first_user w), w);
  get_users_by_emails = λ id emails w. (ok [], w);
  insert_users = λ us w. (ok (ids_from 5 us), record w { users = us });
  update_user = λ u w. (ok tt, record w { users = u ∷ [] });
  get_activation = λ hash t w. (ok activation, w);
  insert_activations = λ acts w. (ok tt, add_row w);
  get_role = λ tenant_id id w. (ok member, w);
  insert_user_roles = λ rows w. (ok tt, add_row w);
  insert_session = λ s w. (ok 9, record w { sessions = s ∷ w.sessions });
  delete_sessions = λ id w. (ok tt, record w { sessions = [] });
}

roll_back-rolls :
    {A : Type 0} (w : World) (r : Result (Failure String) A × World) (w' : World)
    (e : Failure String)
    → roll_back w r ≡ (err e, w')
    → w' ≡ w
roll_back-rolls w (ok a, v) w' e h = absurd cc
roll_back-rolls w (err e', v) w' e h = cc

roll_back-commits :
    {A : Type 0} (w : World) (r : Result (Failure String) A × World) (w' : World) (a : A)
    → roll_back w r ≡ (ok a, w')
    → r ≡ (ok a, w')
roll_back-commits w (ok b, v) w' a h = h
roll_back-commits w (err e', v) w' a h = absurd cc

pub tx-IsAtomic : IsAtomic world services.tx_service
tx-IsAtomic = record {
  rolls_back = λ m. record { same = λ w w' e h. roll_back-rolls w (m w) w' e h };
  commits = λ m w w' a h. roll_back-commits w (m w) w' a h;
}

abbrev pub empty_world : World
empty_world = record { users = []; sessions = []; rows = 0 }

abbrev pub ann : User
ann = record {
  id = none;
  tenant_id = some 1;
  email = some "ann@mail";
  username = some "ann";
  password = some "";
  display_name = some "";
  status = 1;
  create_time = some 100;
  update_time = some 100;
  role = none;
}
