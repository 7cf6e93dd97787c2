-- ===== src/Handler/Users/Credentials.antt =====
-- `LogIn` and `InitUser` of handler/user.go: whom they open a session for.
use mirror_backend.Common.{
  ℕ, ◌+◌, Bool, true, false, not, some, get_or, ok, err, ◌≡◌, refl, sym, ap, ◌∙◌,
}
use mirror_backend.Action.{
  Failure, ◌>>◌, or_raise, raise_if, >>=-eq-ok, pure-eq-ok, or_raise-eq-ok, raise_if-eq-ok,
}
use mirror_backend.Entity.Tenant.{Tenant}
use mirror_backend.Entity.User.{User}
use mirror_backend.Handler.Values.{check_valid, check_valid-eq-ok}
use mirror_backend.Handler.Users.{
  Services, LogInRequest, log_in, log_in_request_value, log_in_validator, tenant_of,
  compare_password, open_session, std_err, session_byte_length,
}
use mirror_backend.Session.{Session, new_session, three_months}
use mirror_backend.Validator.{valid}
use mirror_backend.Validator.Form.{validate}

pub not-eq-false : (b : Bool) → not b ≡ false → b ≡ true
not-eq-false true h = refl
not-eq-false false h = absurd cc

module _ {W E : Type 0} (services : Services W E) where
  open services use {now, random, tokens, get_user_by_username, insert_session}

  -- The tenant and the user of the request are found, and the password is that of the user. The
  -- session is of this user, and lasts three months.
  pub record IsLoggedIn (req : LogInRequest) (w : W) (sess : Session) : Type 0 where
    pub tenant : Tenant
    pub user : User
    pub after_tenant : W
    pub after_user : W
    pub found_tenant :
        tenant_of services req.tenant_id req.tenant_name w ≡ (ok tenant, after_tenant)
    pub found_user :
        get_user_by_username (get_or 0 tenant.id) (get_or "" req.username) after_tenant
        ≡ (ok user, after_user)
    pub right_password : compare_password services user (get_or "" req.password) ≡ true
    pub of_user : sess.user_id ≡ some (get_or 0 user.id)
    pub lasting :
        (since : ℕ) × (sess.create_time ≡ some since)
        × (sess.expire_time ≡ some (since + three_months))

  open_session-eq-ok :
      (user : User) (w w' : W) (sess : Session)
      → open_session services user w ≡ (ok sess, w')
      → (sess.user_id ≡ some (get_or 0 user.id))
        × (since : ℕ) × (sess.create_time ≡ some since)
        × (sess.expire_time ≡ some (since + three_months))
  unfolding open_session new_session
  open_session-eq-ok user w w' sess h =
      let (time, w1, _, k1) = >>=-eq-ok now _ w h in
      let (token, w2, _, k2) = >>=-eq-ok (random session_byte_length) _ w1 k1 in
      let made = new_session tokens time token (get_or 0 user.id) in
      let (id, w3, _, k3) = >>=-eq-ok (insert_session made) _ w2 k2 in
      let (same, _) = pure-eq-ok _ w3 k3 in
      (
        sym (ap Session.user_id same),
        time,
        sym (ap Session.create_time same),
        sym (ap Session.expire_time same),
      )

  -- A log in that succeeds is one with the password of the user that it names, and opens a session
  -- for this user.
  pub log_in-IsLoggedIn :
      (req : LogInRequest) (w w' : W) (sess : Session)
      → log_in services req w ≡ (ok sess, w')
      → IsLoggedIn req w sess
  unfolding log_in
  log_in-IsLoggedIn req w w' sess h =
      let answer = validate (log_in_request_value req) log_in_validator in
      let tenant_call = tenant_of services req.tenant_id req.tenant_name in
      let (tenant, w1, h1, k1) =
        >>=-eq-ok (check_valid answer >> or_raise tenant_call std_err) _ w h in
      let (_, w0, kv, k0) = >>=-eq-ok (check_valid answer) _ w h1 in
      let user_call = get_user_by_username (get_or 0 tenant.id) (get_or "" req.username) in
      let (user, w2, h2, k2) = >>=-eq-ok (or_raise user_call std_err) _ w1 k1 in
      let right = compare_password services user (get_or "" req.password) in
      let (_, w3, h3, k3) = >>=-eq-ok (raise_if (not right) std_err) _ w2 k2 in
      let (not_wrong, _) = raise_if-eq-ok (not right) std_err w2 h3 in
      let (owner, since, created, expires) = open_session-eq-ok user w3 w' sess k3 in
      let (_, unmoved) = check_valid-eq-ok answer w kv in
      record {
        tenant = tenant;
        user = user;
        after_tenant = w1;
        after_user = w2;
        found_tenant = ap tenant_call unmoved ∙ or_raise-eq-ok tenant_call std_err w0 k0;
        found_user = or_raise-eq-ok user_call std_err w1 h2;
        right_password = not-eq-false right not_wrong;
        of_user = owner;
        lasting = (since, created, expires);
      }

  -- what stops a log in
  pub data IsRefused (req : LogInRequest) (w : W) : Type 0 where
    no_tenant :
        (e : Failure E) (v : W)
        → tenant_of services req.tenant_id req.tenant_name w ≡ (err e, v)
        → IsRefused req w
    no_user :
        (tenant : Tenant) (v : W) (e : Failure E) (v' : W)
        → tenant_of services req.tenant_id req.tenant_name w ≡ (ok tenant, v)
        → get_user_by_username (get_or 0 tenant.id) (get_or "" req.username) v ≡ (err e, v')
        → IsRefused req w
    wrong_password :
        (tenant : Tenant) (v : W) (user : User) (v' : W)
        → tenant_of services req.tenant_id req.tenant_name w ≡ (ok tenant, v)
        → get_user_by_username (get_or 0 tenant.id) (get_or "" req.username) v ≡ (ok user, v')
        → compare_password services user (get_or "" req.password) ≡ false
        → IsRefused req w

  -- A valid request that names no tenant, or no user of its tenant, or a wrong password, is answered
  -- with one and the same error, whatever the reason and whatever the repositories' errors.
  pub log_in-IsRefused :
      (req : LogInRequest) (w : W)
      → validate (log_in_request_value req) log_in_validator ≡ valid
      → IsRefused req w
      → (log_in services req w).0 ≡ err std_err
  unfolding log_in
  log_in-IsRefused req w good (no_tenant e v h) = rw (good, h) refl
  log_in-IsRefused req w good (no_user tenant v e v' h k) = rw (good, h, k) refl
  log_in-IsRefused req w good (wrong_password tenant v user v' h k wrong) =
      rw (good, h, k, wrong) refl
