-- ===== src/Examples/Middleware.antt =====
-- The session middleware over repositories that know one session.
use mirror_backend.Common.{
  String, none, some, [], ◌∷◌, if◌then◌else◌, str_eq, ok, err, ◌≡◌, ◌↔◌, refl, get_or,
}
use mirror_backend.Entity.Tenant.{Tenant}
use mirror_backend.Entity.User.{Role, UserRole, User}
use mirror_backend.Session.{get_token_hash, new_session, stored}
use mirror_backend.Session.Middleware.{
  Repos, handle, next, or_invalid, check_session, handle-new_session,
}
use mirror_backend.Session.Middleware.Admitted.{LetThrough, handle-next_iff}
use mirror_backend.Examples.Sessions.{older, plain}

abbrev ann : User
ann = record {
  id = some 5;
  tenant_id = some 1;
  email = some "ann@x.io";
  username = some "ann";
  password = some "";
  display_name = some "Ann";
  status = 2;
  create_time = some 0;
  update_time = some 0;
  role = none;
}

abbrev admin : Role
admin = record {
  id = some 3;
  name = some "Admin";
  role_desc = none;
  status = 1;
  actions = "edit_role" ∷ "edit_user" ∷ [];
  tenant_id = some 1;
  create_time = some 0;
  update_time = some 0;
}

abbrev home : Tenant
home = record {
  id = some 1;
  name = some "home";
  status = 1;
  ext_info = none;
  create_time = some 0;
  update_time = some 0;
}

abbrev admin_ann : UserRole
admin_ann = record {
  id = some 9;
  tenant_id = some 1;
  user_id = some 5;
  role_id = some 3;
  create_time = some 0;
  update_time = some 0;
}

abbrev repos : Repos String
repos = record {
  get_by_token_hash = λ hash. if str_eq hash "ab" then ok older else err "no session";
  get_user = λ id. ok ann;
  get_tenant = λ id. ok home;
  get_user_role = λ tenant_id user_id. ok admin_ann;
  get_role = λ tenant_id id. ok admin;
}

handle-next_iff_example :
    (handle plain repos ("edit_user" ∷ []) (("session", "ab") ∷ [])
      ≡ next (record ann { role = some admin }) home)
    ↔ LetThrough plain repos
        ("edit_user" ∷ [])
        (("session", "ab") ∷ [])
        (record ann { role = some admin })
        home
handle-next_iff_example =
    handle-next_iff plain repos ("edit_user" ∷ []) (("session", "ab") ∷ [])
      (record ann { role = some admin }) home

handle-new_session_example :
    handle plain repos [] (("session", get_or "" (new_session plain 10 "ab" 5).token) ∷ [])
    ≡ or_invalid
        (repos.get_by_token_hash (get_token_hash (stored (new_session plain 10 "ab" 5))))
        (check_session plain repos [])
handle-new_session_example = handle-new_session plain repos [] 10 5 "ab" [] (λ p. cc) refl
