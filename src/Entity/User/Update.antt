-- ===== src/Entity/User/Update.antt =====
-- What `Update` writes to a user.
use mirror_backend.Common.{
  ℕ, String, Bool, false, Option, none, some, if◌then◌else◌, ◌≡◌, ◌≢◌, ◌⊎◌, arith, eq_iff,
}
use mirror_backend.Entity.User.{User, UserStatus, get_password, update}

-- how `Update` relates the user before and after
pub record Updated (now : ℕ) (status : UserStatus) (password : Option String) (e e' : User)
    (changed : Bool) : Type 0 where
  pub new_status : (status ≡ 0) × (e'.status ≡ e.status) ⊎ ((status ≢ 0) × (e'.status ≡ status))
  pub new_password : (p : String) → password ≡ some p → get_password e' ≡ p
  pub kept_password : password ≡ none → e'.password ≡ e.password
  pub kept_email : e'.email ≡ e.email
  pub kept_tenant : e'.tenant_id ≡ e.tenant_id
  pub kept_id : e'.id ≡ e.id
  pub time : e'.update_time ≡ (if changed then some now else e.update_time)
  pub unchanged : changed ≡ false → e' ≡ e

-- After `Update` the user has the status and the password that were asked for; what was not asked
-- for, its email and its tenant are as before; and the update time is `now` where `Update` tells of a
-- change and as before where it tells of none, in which case the whole user is as before.
pub update_user-Updated :
    (now : ℕ) (status : UserStatus) (password : Option String) (e : User)
    → Updated now status password e
        (update now status password e).0
        (update now status password e).1
unfolding update
update_user-Updated now status password e = record {
  new_status = ground arith;
  new_password = λ p h. ground (arith, eq_iff (get_password e) p);
  kept_password = λ h. ground arith;
  kept_email = ground arith;
  kept_tenant = ground arith;
  kept_id = ground arith;
  time = ground arith;
  unchanged = λ h. ground arith;
}
