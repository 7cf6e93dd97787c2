-- ===== src/Handler/Users/Atomic.antt =====
-- `CreateUsers` and `InitUser` of handler/user.go write all or nothing.
use mirror_backend.Common.{
  ℕ, String, false, not, map, ltb, length, Bool-cases, inl, inr, Option, List, [], ◌∷◌, str_eq,
  refl, get_or,
}
use mirror_backend.Action.{Failure, message}
use mirror_backend.Action.Atomic.{
  Reads, pure-Reads, IsSafe, IsAtomic, >>=-Reads, >>=-IsSafe, run_tx-IsSafe, or_fail-Reads,
  raise_if-Reads, raise_some-Reads,
}
use mirror_backend.Entity.Activation.{TokenType, token_type_user}
use mirror_backend.Entity.User.Creation.{
  extract_username_from_email, hash_password, new_user, is_pending,
}
use mirror_backend.Handler.Values.{check_valid, get_tenant_id}
use mirror_backend.Handler.Users.{Services}
use mirror_backend.Handler.Users.Init.{
  InitUserRequest, init_user, user_of_token, activate, init_request_value, init_user_validator,
}
use mirror_backend.Handler.Users.Creation.{
  CreateUserRequest, CreateUsersRequest, to_users, duplicate_email, duplicate_error, existing_error,
  get_email, checked_users, insert_all, create_users, create_request_value, create_users_validator,
}
use mirror_backend.Validator.{ValidateError, Verdict, valid}
use mirror_backend.Validator.Form.{validate}

-- What is called outside of a transaction reads only, and a transaction is atomic.
pub record IsOrderly {W E Db : Type 0} (db : W → Db) (services : Services W E) : Type 1 where
  pub now-Reads : Reads db services.now
  pub bcrypt-Reads : (s : String) → Reads db (services.bcrypt s)
  pub get_users-Reads : (id : ℕ) (es : List String) → Reads db (services.get_users_by_emails id es)
  pub get_activation-Reads : (s : String) (t : TokenType) → Reads db (services.get_activation s t)
  pub get_user-Reads : (id : ℕ) → Reads db (services.get_user_by_id id)
  pub tx-IsAtomic : IsAtomic db services.tx_service

pub check_valid-Reads :
    {W Db : Type 0} (E : Type 0) (db : W → Db) (v : Verdict)
    → Reads {E = Failure E} db (check_valid v)
check_valid-Reads E db valid = record { same = λ w. refl }
check_valid-Reads E db _ = record { same = λ w. refl }

module _ {W E Db : Type 0} (db : W → Db) (services : Services W E) (h : IsOrderly db services) where
  open services use {now, bcrypt, tx_service, tokens}

  hash_password-Reads : (p : String) → Reads db (hash_password now bcrypt p)
  unfolding hash_password
  hash_password-Reads p = elim (Bool-cases (str_eq p "")) [
    | inl none_given ↦ rw none_given (pure-Reads db _)
    | inr given ↦ rw given (>>=-Reads db (bcrypt p) _ (h.bcrypt-Reads p) (λ _. pure-Reads db _))
  ]

  new_user-Reads : (t : ℕ) (e p d : String) → Reads db (new_user now bcrypt t e p d)
  unfolding new_user
  new_user-Reads t e p d = >>=-Reads db now _ h.now-Reads λ time.
      >>=-Reads db _ _ (or_fail-Reads db _ (extract_username_from_email e))
        λ username. >>=-Reads db _ _ (hash_password-Reads p) λ hashed. pure-Reads db _

  to_users-Reads : (t : ℕ) (rs : List CreateUserRequest) → Reads db (to_users services t rs)
  unfolding to_users
  to_users-Reads t [] = pure-Reads db _
  to_users-Reads t (r ∷ rs) =
      >>=-Reads db _ _ (new_user-Reads t _ _ _)
        λ user. >>=-Reads db _ _ (to_users-Reads t rs) λ users. pure-Reads db _

  checked_users-Reads :
      (parse : String → Option ValidateError) (req : CreateUsersRequest)
      → Reads db (checked_users services parse req)
  unfolding checked_users
  checked_users-Reads parse req =
      let tenant_id = get_tenant_id req.context in
      let answer = validate (create_request_value req) (create_users_validator parse) in
      >>=-Reads db _ _
        (>>=-Reads db _ _ (check_valid-Reads E db answer) λ _. to_users-Reads tenant_id req.users)
        λ users.
          let repeated = duplicate_error (duplicate_email [] users) in
          >>=-Reads db _ _
            (>>=-Reads db _ _ (raise_some-Reads db repeated)
              λ _. h.get_users-Reads tenant_id (map get_email users))
            λ exist.
              >>=-Reads db _ _ (raise_if-Reads db (ltb 0 (length exist)) (existing_error exist))
                λ _. pure-Reads db users

  user_of_token-Reads : (req : InitUserRequest) → Reads db (user_of_token services req)
  unfolding user_of_token
  user_of_token-Reads req =
      let answer = validate (init_request_value req) init_user_validator in
      let decoded = tokens.base64_decode (get_or "" req.token) in
      >>=-Reads db _ _
        (>>=-Reads db _ _ (check_valid-Reads E db answer)
          λ _. or_fail-Reads db (message "illegal base64 data") decoded)
        λ token.
          >>=-Reads db _ _ (h.get_activation-Reads (tokens.sha256 token) token_type_user) λ act.
            >>=-Reads db _ _ (h.get_user-Reads (get_or 0 act.target_id)) λ user.
              >>=-Reads db _ _
                (raise_if-Reads db (not (is_pending user)) (message "invalid token/user"))
                λ _. pure-Reads db user

  -- Where creating users fails, at whatever point, the database is as before.
  pub create_users-IsSafe :
      (parse : String → Option ValidateError) (req : CreateUsersRequest)
      → IsSafe db (create_users services parse false req)
  unfolding create_users
  create_users-IsSafe parse req =
      >>=-IsSafe db (checked_users services parse req) _ (checked_users-Reads parse req)
        λ users. run_tx-IsSafe db tx_service (insert_all services _ users req.users) h.tx-IsAtomic

  -- Where setting the first password fails, at the log in too, the database is as before.
  pub init_user-IsSafe : (req : InitUserRequest) → IsSafe db (init_user services req)
  unfolding init_user
  init_user-IsSafe req =
      >>=-IsSafe db (user_of_token services req) _ (user_of_token-Reads req)
        λ user. run_tx-IsSafe db tx_service (activate services req user) h.tx-IsAtomic
