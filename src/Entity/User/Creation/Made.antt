-- ===== src/Entity/User/Creation/Made.antt =====
-- What `NewUser` makes.
use mirror_backend.Common.{
  ℕ, String, Bool, true, false, none, some, if◌then◌else◌, str_eq, ok, ◌≡◌, sym, ap, ◌∙◌,
}
use mirror_backend.Action.{
  Action, Failure, message, pure, or_fail, ◌>>=◌, or_fail-eq-ok, pure-eq-ok, >>=-eq-ok,
}
use mirror_backend.Entity.User.{User, UserStatus}
use mirror_backend.Entity.User.Creation.{
  extract_username_from_email, hash_password, new_user, user_status_pending, user_status_normal,
}

abbrev pub first_status : String → UserStatus
first_status password = if str_eq password "" then user_status_pending else user_status_normal

pub record IsNew (tenant_id : ℕ) (email password : String) (u : User) : Type 0 where
  pub no_id : u.id ≡ none
  pub tenant : u.tenant_id ≡ some tenant_id
  pub has_email : u.email ≡ some email
  pub has_username : u.username ≡ extract_username_from_email email
  pub has_status : u.status ≡ first_status password

status_of_hash :
    {W E : Type 0} (m : Action W (Failure E) String) (b : Bool) (w w' : W)
    (hashed : String × UserStatus)
    → (if b
          then pure ("", user_status_pending)
          else (m >>= λ hash. pure (hash, user_status_normal)))
        w
      ≡ (ok hashed, w')
    → hashed.1 ≡ (if b then user_status_pending else user_status_normal)
status_of_hash m true w w' hashed h = cc
status_of_hash m false w w' hashed h = let (hash, v, _, k) = >>=-eq-ok m _ w h in cc

module _ {W E : Type 0} (now : Action W (Failure E) ℕ)
    (bcrypt : String → Action W (Failure E) String) where
  hash_password-eq-ok :
      (p : String) (w w' : W) (hashed : String × UserStatus)
      → hash_password now bcrypt p w ≡ (ok hashed, w')
      → hashed.1 ≡ first_status p
  unfolding hash_password
  hash_password-eq-ok p w w' hashed h = status_of_hash (bcrypt p) (str_eq p "") w w' hashed h

  pub new_user-IsNew :
      (t : ℕ) (e p d : String) (w w' : W) (u : User)
      → new_user now bcrypt t e p d w ≡ (ok u, w')
      → IsNew t e p u
  unfolding new_user
  new_user-IsNew t e p d w w' u h =
      let (time, w1, h1, k1) = >>=-eq-ok now _ w h in
      let (username, w2, h2, k2) =
        >>=-eq-ok (or_fail (message _) (extract_username_from_email e)) _ w1 k1 in
      let (hashed, w3, h3, k3) = >>=-eq-ok (hash_password now bcrypt p) _ w2 k2 in
      let (named, _) = or_fail-eq-ok (message _) (extract_username_from_email e) w1 h2 in
      let (made, _) = pure-eq-ok _ w3 k3 in
      record {
        no_id = sym (ap User.id made);
        tenant = sym (ap User.tenant_id made);
        has_email = sym (ap User.email made);
        has_username = sym (ap User.username made) ∙ sym named;
        has_status = sym (ap User.status made) ∙ hash_password-eq-ok p w2 w3 hashed h3;
      }
