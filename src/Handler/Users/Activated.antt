-- ===== src/Handler/Users/Activated.antt =====
-- `InitUser` of handler/user.go where it returns.
use mathlib.Core.Path.{subst}
use mirror_backend.Common.{
  ℕ, String, true, false, not, if◌then◌else◌, get_or, some, ==_iff, ok, ◌≡◌, inl, inr, ap, ◌∙◌,
  arith, str_eq,
}
use mirror_backend.Action.{
  message, ◌>>◌, or_fail, raise_if, >>=-eq-ok, or_fail-eq-ok, pure-eq-ok, raise_if-eq-ok,
}
use mirror_backend.Action.Atomic.{IsAtomic, run_tx-commits}
use mirror_backend.Entity.Activation.{Activation, token_type_user}
use mirror_backend.Entity.User.{User, get_tenant_id, update}
use mirror_backend.Entity.User.Update.{update_user-Updated}
use mirror_backend.Entity.User.Creation.{
  new_user, is_pending, user_status_pending, user_status_normal,
}
use mirror_backend.Entity.User.Creation.Made.{IsNew, new_user-IsNew}
use mirror_backend.Handler.Values.{check_valid, check_valid-eq-ok}
use mirror_backend.Handler.Users.{Services, log_in}
use mirror_backend.Handler.Users.Passwords.{valid_password}
use mirror_backend.Handler.Users.Credentials.{not-eq-false, IsLoggedIn, log_in-IsLoggedIn}
use mirror_backend.Handler.Users.Init.{
  InitUserRequest, init_user, user_of_token, activate, log_in_request, init_request_value,
  init_user_validator,
}
use mirror_backend.Session.{Session}
use mirror_backend.Validator.Form.{validate}

module _ {W E Db : Type 0} (db : W → Db) (services : Services W E) where
  open services use {now, bcrypt, tokens, tx_service, get_activation, get_user_by_id, update_user}

  -- The token of the request decodes, its hash has a user's activation, and the user is the
  -- activation's.
  pub record IsTokenUser (req : InitUserRequest) (user : User) : Type 0 where
    pub token : String
    pub act : Activation
    pub v0 : W
    pub v1 : W
    pub v2 : W
    pub decodes : tokens.base64_decode (get_or "" req.token) ≡ some token
    pub has_activation : get_activation (tokens.sha256 token) 1 v0 ≡ (ok act, v1)
    pub is_target : get_user_by_id (get_or 0 act.target_id) v1 ≡ (ok user, v2)

  -- What `InitUser` has done for a request: the token's user was pending, and is the same user but
  -- for the status, which is normal, and the password; it is stored, and with the password a
  -- session is opened.
  pub record IsActivated (req : InitUserRequest) (after : User) (sess : Session) : Type 0 where
    pub before : User
    pub is_token_user : IsTokenUser req before
    pub was_pending : before.status ≡ 1
    pub now_normal : after.status ≡ 2
    pub same_id : after.id ≡ before.id
    pub same_email : after.email ≡ before.email
    pub same_tenant : after.tenant_id ≡ before.tenant_id
    pub at_update : W
    pub at_login : W
    pub stored : update_user after at_update ≡ (ok tt, at_login)
    pub logged_in : IsLoggedIn services (log_in_request services after req) at_login sess

  new_status :
      (time : ℕ) (p : String) (user fresh : User) (t : ℕ) (e : String)
      → str_eq p "" ≡ false
      → IsNew t e p fresh
      → (update time fresh.status fresh.password user).0.status ≡ user_status_normal
  new_status time p user fresh t e given new =
      let is_normal : fresh.status ≡ user_status_normal =
        new.has_status ∙ ap (λ b. if b then user_status_pending else user_status_normal) given in
      let updated = update_user-Updated time fresh.status fresh.password user in
      elim updated.new_status [
        | inl (unknown, _) ↦ absurd (omega (arith, unknown, is_normal))
        | inr (_, set) ↦ set ∙ is_normal
      ]

  activate-eq-ok :
      (req : InitUserRequest) (user : User) (w w' : W) (after : User) (sess : Session)
      → IsTokenUser req user
      → is_pending user ≡ true
      → str_eq (get_or "" req.password) "" ≡ false
      → activate services req user w ≡ (ok (after, sess), w')
      → IsActivated req after sess
  unfolding activate
  activate-eq-ok req user w w' after sess has_token pending given h =
      let p = get_or "" req.password in
      let making =
        new_user now bcrypt (get_tenant_id user) (get_or "" user.email) p
          (get_or "" user.display_name) in
      let (fresh, w1, h1, k1) = >>=-eq-ok making _ w h in
      let (time, w2, _, k2) = >>=-eq-ok now _ w1 k1 in
      let user' = (update time fresh.status fresh.password user).0 in
      let logging = log_in services (log_in_request services user' req) in
      let (session, w3, h3, k3) = >>=-eq-ok (update_user user' >> logging) _ w2 k2 in
      let (_, w4, h4, k4) = >>=-eq-ok (update_user user') _ w2 h3 in
      let (same, _) = pure-eq-ok (user', session) w3 k3 in
      let new =
        new_user-IsNew now bcrypt (get_tenant_id user) (get_or "" user.email) p
          (get_or "" user.display_name) w w1 fresh h1 in
      let updated = update_user-Updated time fresh.status fresh.password user in
      subst (λ r. IsActivated req r.0 r.1) same
        (record {
          before = user;
          is_token_user = has_token;
          was_pending = (==_iff user.status 1).0 pending;
          now_normal = new_status time p user fresh _ _ given new;
          same_id = updated.kept_id;
          same_email = updated.kept_email;
          same_tenant = updated.kept_tenant;
          at_update = w2;
          at_login = w4;
          stored = h4;
          logged_in =
              log_in-IsLoggedIn services (log_in_request services user' req) w4 w3 session k4;
        })

  user_of_token-eq-ok :
      (req : InitUserRequest) (w w' : W) (user : User)
      → user_of_token services req w ≡ (ok user, w')
      → IsTokenUser req user
        × (str_eq (get_or "" req.password) "" ≡ false)
        × (is_pending user ≡ true)
  unfolding user_of_token
  user_of_token-eq-ok req w w' user h =
      let answer = validate (init_request_value req) init_user_validator in
      let decoded =
        or_fail (message "illegal base64 data") (tokens.base64_decode (get_or "" req.token)) in
      let (token, w1, h1, k1) = >>=-eq-ok (check_valid answer >> decoded) _ w h in
      let (_, w0, h0, k0) = >>=-eq-ok (check_valid answer) _ w h1 in
      let (decodes, _) =
        or_fail-eq-ok (message "illegal base64 data") (tokens.base64_decode (get_or "" req.token))
          w0 k0 in
      let (good, _) = check_valid-eq-ok answer w h0 in
      let (act, w2, h2, k2) =
        >>=-eq-ok (get_activation (tokens.sha256 token) token_type_user) _ w1 k1 in
      let (u, w3, h3, k3) = >>=-eq-ok (get_user_by_id (get_or 0 act.target_id)) _ w2 k2 in
      let (_, w4, h4, k4) =
        >>=-eq-ok (raise_if (not (is_pending u)) (message "invalid token/user")) _ w3 k3 in
      let (pending, _) = raise_if-eq-ok (not (is_pending u)) (message "invalid token/user") w3 h4 in
      let (same, _) = pure-eq-ok u w4 k4 in
      let token_user : IsTokenUser req u = record {
        token = token;
        act = act;
        v0 = w1;
        v1 = w2;
        v2 = w3;
        decodes = decodes;
        has_activation = h2;
        is_target = h3;
      } in
      (
        subst (IsTokenUser req) same token_user,
        valid_password req.token req.password good,
        subst (λ u. is_pending u ≡ true) same (not-eq-false (is_pending u) pending),
      )

  -- Where `InitUser` returns and a transaction is atomic, the token of the request decodes, its hash
  -- has an activation, and the user that this is for was pending and has become normal, with the ID,
  -- the tenant and the email that it had; it is stored, and the session is then opened by a log in of
  -- this user with the password of the request.
  pub init_user-IsActivated :
      (tx-IsAtomic : IsAtomic db tx_service) (req : InitUserRequest) (w w' : W) (after : User)
      (sess : Session)
      → init_user services req w ≡ (ok (after, sess), w')
      → IsActivated req after sess
  unfolding init_user
  init_user-IsActivated tx-IsAtomic req w w' after sess h =
      let (user, w1, h1, k1) = >>=-eq-ok (user_of_token services req) _ w h in
      let (token_user, given, pending) = user_of_token-eq-ok req w w1 user h1 in
      let body = run_tx-commits db tx_service false (activate services req user) tx-IsAtomic k1 in
      activate-eq-ok req user w1 w' after sess token_user pending given body
