-- ===== src/Handler/Users/Created.antt =====
-- What `CreateUsers` of handler/user.go has made and stored where it returns.
use mathlib.Core.Path.{subst, ap₂}
use mirror_backend.Common.{
  ℕ, String, Bool, Option, none, some, List, [], ◌∷◌, map, ltb, length, get_or, Each, each_cons, ok,
  ◌≡◌, refl,
}
use mirror_backend.Action.{◌>>◌, raise_some, raise_if, >>=-eq-ok, pure-eq-ok, raise_some-eq-ok}
use mirror_backend.Action.Atomic.{IsAtomic, run_tx-commits}
use mirror_backend.Entity.User.{User}
use mirror_backend.Goutil.Duplicates.{IsDistinct}
use mirror_backend.Handler.Values.{check_valid, get_tenant_id}
use mirror_backend.Handler.Users.Emails.{duplicate_email-IsDistinct}
use mirror_backend.Handler.Users.{Services}
use mirror_backend.Validator.{ValidateError}
use mirror_backend.Validator.Form.{validate}
use mirror_backend.Handler.Users.Creation.{
  CreateUserRequest, CreateUsersRequest, Made, to_users, make_users, get_email, duplicate_email,
  activations, duplicate_error, existing_error, checked_users, insert_all, create_users,
  create_request_value, create_users_validator, unless_empty,
}
use mirror_backend.Goutil.Members.{NoneTwice, IsDistinct-NoneTwice}
use mirror_backend.Handler.Users.Stored.{IsStored, insert_all-IsStored}
use mirror_backend.Handler.Users.Made.{email_of, IsNewFor, IsMade, to_users-Each, make_users-Each}

emails_of_new :
    (t : ℕ) (rs : List CreateUserRequest) (us : List User)
    → Each (IsNewFor t) rs us
    → map get_email us ≡ map email_of rs
emails_of_new t [] [] news = refl
emails_of_new t [] (u ∷ us) news = elim news [ ]
emails_of_new t (r ∷ rs) [] news = elim news [ ]
emails_of_new t (r ∷ rs) (u ∷ us) (each_cons new news) =
    ap₂ (λ e es. get_or "" e ∷ es) new.has_email (emails_of_new t rs us news)

module _ {W E Db : Type 0} (db : W → Db) (services : Services W E) where
  open services use {
    tx_service, get_users_by_emails, insert_users, insert_user_roles, insert_activations,
  }

  duplicate_error-eq-none : (o : Option String) → duplicate_error {E = E} o ≡ none → o ≡ none
  duplicate_error-eq-none none h = refl
  duplicate_error-eq-none (some e) h = absurd cc

  checked_users-eq-ok :
      (parse : String → Option ValidateError) (req : CreateUsersRequest) (w w' : W) (us : List User)
      → checked_users services parse req w ≡ (ok us, w')
      → Each (IsNewFor (get_tenant_id req.context)) req.users us × IsDistinct (map get_email us)
  unfolding checked_users
  checked_users-eq-ok parse req w w' us h =
      let t = get_tenant_id req.context in
      let answer = validate (create_request_value req) (create_users_validator parse) in
      let (users, w1, h1, k1) =
        >>=-eq-ok (check_valid answer >> to_users services t req.users) _ w h in
      let (_, w2, h2, k2) = >>=-eq-ok (check_valid answer) _ w h1 in
      let (exist, w3, h3, k3) =
        >>=-eq-ok
          (raise_some (duplicate_error (duplicate_email [] users))
            >> get_users_by_emails t (map get_email users))
          _ w1 k1 in
      let (_, w4, h4, _) =
        >>=-eq-ok (raise_some (duplicate_error (duplicate_email [] users))) _ w1 h3 in
      let (once, _) = raise_some-eq-ok (duplicate_error (duplicate_email [] users)) w1 h4 in
      let (_, w5, _, k5) =
        >>=-eq-ok (raise_if (ltb 0 (length exist)) (existing_error exist)) _ w3 k3 in
      let (same, _) = pure-eq-ok users w5 k5 in
      let none_twice = duplicate_email-IsDistinct [] users (duplicate_error-eq-none _ once) in
      subst (λ us. Each (IsNewFor t) req.users us × IsDistinct (map get_email us)) same
        (to_users-Each services t req.users w2 w1 users k2, none_twice)

  -- Where `CreateUsers` returns, no email of the request stands there twice, and for each entry of
  -- the request, in order, there is a new user of the tenant with its email, an ID and the role it
  -- asks for, the row that gives the user this role, and an activation with this ID exactly if the
  -- entry has no password. The users are inserted, and their IDs are those that this returns, in
  -- order; and the rows of the roles and all the activations are inserted.
  pub create_users-IsMade :
      (tx-IsAtomic : IsAtomic db tx_service) (parse : String → Option ValidateError) (has_tx : Bool)
      (req : CreateUsersRequest) (w w' : W) (ms : List Made)
      → create_users services parse has_tx req w ≡ (ok ms, w')
      → NoneTwice (map email_of req.users)
        × Each (IsMade services (get_tenant_id req.context)) req.users ms
        × IsStored services ms w'
  unfolding create_users insert_all
  create_users-IsMade tx-IsAtomic parse has_tx req w w' ms h =
      let t = get_tenant_id req.context in
      let (us, w1, h1, k1) = >>=-eq-ok (checked_users services parse req) _ w h in
      let (news, none_twice) = checked_users-eq-ok parse req w w1 us h1 in
      let body =
        run_tx-commits db tx_service has_tx (insert_all services t us req.users) tx-IsAtomic k1 in
      let (ids, w2, _, k2) = >>=-eq-ok (insert_users us) _ w1 body in
      let (made, w3, h3, k3) = >>=-eq-ok (make_users services t us req.users ids) _ w2 k2 in
      let (_, w4, _, k4) =
        >>=-eq-ok
          (unless_empty services insert_user_roles (map Made.user_role made)
            >> unless_empty services insert_activations (activations made))
          _ w3 k3 in
      let (same, _) = pure-eq-ok made w4 k4 in
      (
        IsDistinct-NoneTwice _ (subst IsDistinct (emails_of_new t req.users us news) none_twice),
        subst (Each (IsMade services t) req.users) same
            (make_users-Each services t us req.users ids w2 w3 made news h3),
        insert_all-IsStored services t us req.users w1 w' ms body,
      )
