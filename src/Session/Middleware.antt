-- ===== src/Session/Middleware.antt =====
-- pkg/router/session.go: the middleware that lets a request through to its handler. A cookie is its
-- name and its value. The repositories are parameters.
pub mod Admitted
use mathlib.Core.List.{Memᴰ}
use mirror_backend.Common.{
  ℕ, String, Bool, true, false, Option, none, some, List, [], ◌∷◌, if◌then◌else◌, str_eq, eq_iff,
  str_eq_of_ne, ◌∙◌, ap, Result, ok, err, any, ◌≡◌, ◌≢◌, ◌↔◌, refl, get_or, ◌⊎◌, inl, inr,
  Bool-cases,
}
use mirror_backend.Goutil.{contains_str}
use mirror_backend.Goutil.Members.{any-shared, shared-any}
use mirror_backend.Entity.Tenant.{Tenant}
use mirror_backend.Entity.User
use mirror_backend.Entity.User.{ActionCode, Role, UserRole, User, get_role_id}
use mirror_backend.Session.{Session, Tokens, get_user_id, get_token_hash, new_session, stored}

pub record Repos (E : Type 0) : Type 0 where
  pub get_by_token_hash : String → Result E Session
  pub get_user : ℕ → Result E User
  pub get_tenant : ℕ → Result E Tenant
  pub get_user_role : ℕ → ℕ → Result E UserRole
  pub get_role : ℕ → ℕ → Result E Role

-- the answer to the request, or the user and the tenant with which the handler is called
pub data Reply : Type 0 where
  invalid_session : Reply
  forbidden : Reply
  next : User → Tenant → Reply

-- the value of the first cookie named "session"
unfoldable pub session_cookie : List (String × String) → String
session_cookie [] = ""
session_cookie ((name, value) ∷ cookies) =
    let rest = session_cookie cookies in if str_eq name "session" then value else rest

-- no actions are asked for, or the role has one of them
unfoldable pub is_allowed : List ActionCode → List ActionCode → Bool
is_allowed [] actions = true
is_allowed allowed actions = any (contains_str allowed) actions

abbrev pub or_invalid : {E A : Type 0} → Result E A → (A → Reply) → Reply
or_invalid (ok a) k = k a
or_invalid (err e) k = invalid_session

abbrev pub decoded : Option String → (String → Reply) → Reply
decoded none k = invalid_session
decoded (some t) k = k t

module _ {E : Type 0} (tokens : Tokens) (repos : Repos E) (allowed : List ActionCode) where
  open tokens use {base64_decode, sha256}
  open repos use {get_by_token_hash, get_user, get_tenant, get_user_role, get_role}

  abbrev pub admit : User → Tenant → Role → Reply
  admit user tenant role =
      if is_allowed allowed role.actions
      then next (record user { role = some role }) tenant
      else forbidden

  abbrev pub check_session : Session → Reply
  check_session session = or_invalid (get_user (get_user_id session)) λ user.
      or_invalid (get_tenant (User.get_tenant_id user)) λ tenant.
        or_invalid (get_user_role (User.get_tenant_id user) (User.get_id user)) λ user_role.
          or_invalid (get_role (User.get_tenant_id user) (get_role_id user_role))
            λ role. admit user tenant role

  unfoldable pub handle : List (String × String) → Reply
  unfolding session_cookie is_allowed
  handle cookies =
      let token = session_cookie cookies in
      if str_eq token ""
      then invalid_session
      else decoded (base64_decode token)
          λ t. or_invalid (get_by_token_hash (sha256 t)) check_session

-- A request whose first session cookie is the token of a new session is looked up by the hash that
-- the session is stored under, if the encoding of the session's random string is not empty and
-- decodes to it.
pub handle-new_session :
    {E : Type 0} (tokens : Tokens) (repos : Repos E) (allowed : List ActionCode) (now user_id : ℕ)
    (random : String) (cookies : List (String × String))
    → tokens.base64_encode random ≢ ""
    → tokens.base64_decode (tokens.base64_encode random) ≡ some random
    → handle tokens repos allowed
        (("session", get_or "" (new_session tokens now random user_id).token) ∷ cookies)
      ≡ or_invalid
          (repos.get_by_token_hash
            (get_token_hash (stored (new_session tokens now random user_id))))
          (check_session tokens repos allowed)
unfolding handle new_session stored session_cookie
handle-new_session tokens repos allowed now user_id random cookies given decodes =
    rw (str_eq_of_ne (tokens.base64_encode random) "" given, decodes)
