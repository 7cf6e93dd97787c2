-- ===== src/Handler/Users/Made.antt =====
-- What `CreateUsers` of handler/user.go makes for each entry of its request.
use mathlib.Core.Path.{subst}
use mirror_backend.Common.{
  ℕ, String, Bool, true, false, Option, none, some, List, [], ◌∷◌, get_or, is_some, Each, each_nil,
  each_cons, if◌then◌else◌, ok, ◌≡◌, eq_of_some, refl, sym, ap, ◌∙◌, str_eq, arith,
}
use mirror_backend.Action.{panicked, pure, ◌>>=◌, or_fail, >>=-eq-ok, pure-eq-ok}
use mirror_backend.Entity.Activation.{Activation, new_activation, token_type_user}
use mirror_backend.Entity.User.{User, Role}
use mirror_backend.Entity.User.Creation.{new_user, is_pending}
use mirror_backend.Entity.User.Creation.Made.{IsNew, first_status, new_user-IsNew}
use mirror_backend.Handler.Users.{Services}
use mirror_backend.Handler.Users.Creation.{
  CreateUserRequest, Made, to_users, make_user, make_users, activation_for, first_id, rest_of,
}

abbrev pub email_of : CreateUserRequest → String
email_of r = get_or "" r.email

abbrev pub password_of : CreateUserRequest → String
password_of r = get_or "" r.password

is_pending-password :
    (u : User) (p : String) → u.status ≡ first_status p → is_pending u ≡ str_eq p ""
is_pending-password u p h = ground arith

-- the user of a request is new
abbrev pub IsNewFor : ℕ → CreateUserRequest → User → Type 0
IsNewFor tenant_id r u = IsNew tenant_id (email_of r) (password_of r) u

module _ {W E : Type 0} (services : Services W E) where
  open services use {now, random, bcrypt, tokens, get_role}

  -- What is made for a request: a user of the tenant with an ID and the role that was asked for,
  -- the row that gives it this role, and an activation for it exactly if no password was given.
  pub record IsMade (tenant_id : ℕ) (r : CreateUserRequest) (m : Made) : Type 0 where
    pub tenant : m.user.tenant_id ≡ some tenant_id
    pub has_email : m.user.email ≡ some (email_of r)
    pub has_status : m.user.status ≡ first_status (password_of r)
    pub has_id : is_some m.user.id ≡ true
    pub role_found :
        (v v' : W) × (role : Role) × (get_role tenant_id (get_or 0 r.role_id) v ≡ (ok role, v'))
        × (m.user.role ≡ some role)
    pub row_tenant : m.user_role.tenant_id ≡ some tenant_id
    pub row_user : m.user_role.user_id ≡ m.user.id
    pub row_role : m.user_role.role_id ≡ some (get_or 0 r.role_id)
    pub invited : is_some m.activation ≡ str_eq (password_of r) ""
    pub target : (act : Activation) → m.activation ≡ some act → act.target_id ≡ m.user.id

  pub to_users-Each :
      (t : ℕ) (rs : List CreateUserRequest) (w w' : W) (us : List User)
      → to_users services t rs w ≡ (ok us, w')
      → Each (IsNewFor t) rs us
  unfolding to_users
  to_users-Each t [] w w' us h =
      let (same, _) = pure-eq-ok [] w h in subst (Each (IsNewFor t) []) same each_nil
  to_users-Each t (r ∷ rs) w w' us h =
      let (u, w1, h1, k1) =
        >>=-eq-ok (new_user now bcrypt t (email_of r) (password_of r) _) _ w h in
      let (more, w2, h2, k2) = >>=-eq-ok (to_users services t rs) _ w1 k1 in
      let (same, _) = pure-eq-ok _ w2 k2 in
      let new = new_user-IsNew now bcrypt t (email_of r) (password_of r) _ w w1 u h1 in
      subst (Each (IsNewFor t) (r ∷ rs)) same (each_cons new (to_users-Each t rs w1 w2 more h2))

  new_activation-target :
      (id : ℕ) (w w' : W) (act : Activation)
      → new_activation tokens now random id token_type_user w ≡ (ok act, w')
      → act.target_id ≡ some id
  unfolding new_activation
  new_activation-target id w w' act h =
      let (time, w1, _, k1) = >>=-eq-ok now _ w h in
      let (token, w2, _, k2) = >>=-eq-ok (random _) _ w1 k1 in
      let (same, _) = pure-eq-ok _ w2 k2 in sym (ap Activation.target_id same)

  activation_of-user :
      (b : Bool) (id : ℕ) (w w' : W) (act : Option Activation)
      → (if b
            then (new_activation tokens now random id token_type_user >>= λ act. pure (some act))
            else pure none)
          w
        ≡ (ok act, w')
      → (is_some act ≡ b) × ((a : Activation) → act ≡ some a → a.target_id ≡ some id)
  activation_of-user true id w w' act h =
      let (a, w1, h1, k1) = >>=-eq-ok (new_activation tokens now random id token_type_user) _ w h in
      let (same, _) = pure-eq-ok _ w1 k1 in
      (
        ap is_some (sym same),
        λ a' e.
            ap Activation.target_id (sym (eq_of_some (same ∙ e)))
            ∙ new_activation-target id w w1 a h1,
      )
  activation_of-user false id w w' act h =
      let (same, _) = pure-eq-ok none w h in (ap is_some (sym same), λ a' e. absurd cc)

  make_user-IsMade :
      (t : ℕ) (u : User) (r : CreateUserRequest) (id : ℕ) (w w' : W) (m : Made)
      → IsNewFor t r u
      → make_user services t u r id w ≡ (ok m, w')
      → IsMade t r m
  unfolding make_user
  make_user-IsMade t u r id w w' m new h =
      let (act, w1, h1, k1) = >>=-eq-ok (activation_for services u id) _ w h in
      let (role, w2, h2, k2) = >>=-eq-ok (get_role t (get_or 0 r.role_id)) _ w1 k1 in
      let (same, _) = pure-eq-ok _ w2 k2 in
      let (invited, target) = activation_of-user (is_pending u) id w w1 act h1 in
      subst (IsMade t r) same (record {
        tenant = new.tenant;
        has_email = new.has_email;
        has_status = new.has_status;
        has_id = refl;
        role_found = (w1, w2, role, h2, refl);
        row_tenant = new.tenant;
        row_user = refl;
        row_role = refl;
        invited = invited ∙ is_pending-password u (password_of r) new.has_status;
        target = target;
      })

  pub make_users-Each :
      (t : ℕ) (us : List User) (rs : List CreateUserRequest) (ids : List ℕ) (w w' : W)
      (ms : List Made)
      → Each (IsNewFor t) rs us
      → make_users services t us rs ids w ≡ (ok ms, w')
      → Each (IsMade t) rs ms
  unfolding make_users
  make_users-Each t [] [] ids w w' ms each_nil h =
      let (same, _) = pure-eq-ok [] w h in subst (Each (IsMade t) []) same each_nil
  make_users-Each t [] (r ∷ rs) ids w w' ms news h = elim news [ ]
  make_users-Each t (u ∷ us) [] ids w w' ms news h = elim news [ ]
  make_users-Each t (u ∷ us) (r ∷ rs) ids w w' ms (each_cons new news) h =
      let (id, w1, h1, k1) = >>=-eq-ok (or_fail panicked (first_id ids)) _ w h in
      let (m, w2, h2, k2) = >>=-eq-ok (make_user services t u r id) _ w1 k1 in
      let (more, w3, h3, k3) = >>=-eq-ok (make_users services t us rs (rest_of ids)) _ w2 k2 in
      let (same, _) = pure-eq-ok _ w3 k3 in
      subst (Each (IsMade t) (r ∷ rs)) same (
        each_cons (make_user-IsMade t u r id w1 w2 m new h2)
          (make_users-Each t us rs (rest_of ids) w2 w3 more news h3))
