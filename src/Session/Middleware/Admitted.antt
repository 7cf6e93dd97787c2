-- ===== src/Session/Middleware/Admitted.antt =====
-- Which requests the middleware of pkg/router/session.go lets through.
use mathlib.Core.List.{Memᴰ}
use mirror_backend.Common.{
  String, Bool, true, false, Option, none, some, List, [], ◌∷◌, if◌then◌else◌, str_eq, eq_iff,
  str_eq_of_ne, ◌∙◌, ap, Result, ok, err, ◌≡◌, ◌≢◌, ◌↔◌, refl, ◌⊎◌, inl, inr, Bool-cases,
}
use mirror_backend.Goutil.Members.{any-shared, shared-any}
use mirror_backend.Entity.Tenant.{Tenant}
use mirror_backend.Entity.User
use mirror_backend.Entity.User.{ActionCode, Role, UserRole, User, get_role_id}
use mirror_backend.Session.{Session, Tokens, get_user_id, stored}
use mirror_backend.Session.Middleware.{
  Repos, Reply, invalid_session, forbidden, next, session_cookie, is_allowed, or_invalid, decoded,
  handle,
}

-- The text is the value of the first cookie named "session".
pub data IsSessionCookie : List (String × String) → String → Type 0 where
  first :
      {name value : String} {cookies : List (String × String)}
      → name ≡ "session"
      → IsSessionCookie ((name, value) ∷ cookies) value
  later :
      {name value cookie : String} {cookies : List (String × String)}
      → name ≢ "session"
      → IsSessionCookie cookies cookie
      → IsSessionCookie ((name, value) ∷ cookies) cookie

-- No action is asked for, or one of those asked for is among the role's.
abbrev pub Permits : List ActionCode → List ActionCode → Type 0
Permits allowed actions =
    (allowed ≡ []) ⊎ ((action : ActionCode) × Memᴰ action actions × Memᴰ action allowed)

IsSessionCookie-session_cookie :
    (cookies : List (String × String))
    → session_cookie cookies ≢ ""
    → IsSessionCookie cookies (session_cookie cookies)
unfolding session_cookie
IsSessionCookie-session_cookie [] h = absurd (h refl)
IsSessionCookie-session_cookie ((name, value) ∷ cookies) h =
    elim (Bool-cases (str_eq name "session")) [
      | inl same ↦ rw same (first ((eq_iff name "session").0 same))
      | inr differ ↦
          let rest = IsSessionCookie-session_cookie cookies (λ e. h (rw differ e)) in
          rw differ (later (λ e. cc (differ, (eq_iff name "session").1 e)) rest)
    ]

session_cookie-eq :
    (cookies : List (String × String)) (cookie : String)
    → IsSessionCookie cookies cookie
    → session_cookie cookies ≡ cookie
unfolding session_cookie
session_cookie-eq [] cookie h = elim h [ ]
session_cookie-eq ((name, value) ∷ cookies) cookie (first e) = rw ((eq_iff name "session").1 e) refl
session_cookie-eq ((name, value) ∷ cookies) cookie (later differ h) =
    rw (str_eq_of_ne name "session" differ) (session_cookie-eq cookies cookie h)

is_allowed-Permits :
    (allowed actions : List ActionCode)
    → is_allowed allowed actions ≡ true
    → Permits allowed actions
unfolding is_allowed
is_allowed-Permits [] actions h = inl refl
is_allowed-Permits (a ∷ allowed) actions h = inr (any-shared (a ∷ allowed) actions h)

Permits-is_allowed :
    (allowed actions : List ActionCode)
    → Permits allowed actions
    → is_allowed allowed actions ≡ true
unfolding is_allowed
Permits-is_allowed [] actions h = refl
Permits-is_allowed (a ∷ allowed) actions (inl empty) = absurd cc
Permits-is_allowed (a ∷ allowed) actions (inr (s, m, n)) = shared-any (a ∷ allowed) actions s m n

module _ {E : Type 0} (tokens : Tokens) (repos : Repos E) (allowed : List ActionCode) where
  open tokens use {base64_decode, sha256}
  open repos use {get_by_token_hash, get_user, get_tenant, get_user_role, get_role}

  -- The specification of a request that is let through.
  pub record LetThrough (cookies : List (String × String)) (user : User) (tenant : Tenant)
      : Type 0 where
    pub cookie : String
    pub token : String
    pub session : Session
    pub found : User
    pub user_role : UserRole
    pub role : Role
    pub has_cookie : IsSessionCookie cookies cookie
    pub given : cookie ≢ ""
    pub decodes : base64_decode cookie ≡ some token
    pub has_session : get_by_token_hash (sha256 token) ≡ ok session
    pub is_user : get_user (get_user_id session) ≡ ok found
    pub is_tenant : get_tenant (User.get_tenant_id found) ≡ ok tenant
    pub has_role : get_user_role (User.get_tenant_id found) (User.get_id found) ≡ ok user_role
    pub is_role : get_role (User.get_tenant_id found) (get_role_id user_role) ≡ ok role
    pub permits : Permits allowed role.actions
    pub with_role : user ≡ record found { role = some role }

  or_invalid-next :
      {A : Type 0} (r : Result E A) (k : A → Reply) (user : User) (tenant : Tenant)
      → or_invalid r k ≡ next user tenant
      → (a : A) × (r ≡ ok a) × (k a ≡ next user tenant)
  or_invalid-next (ok a) k user tenant h = (a, refl, h)
  or_invalid-next (err e) k user tenant h = cc

  decoded-next :
      (o : Option String) (k : String → Reply) (user : User) (tenant : Tenant)
      → decoded o k ≡ next user tenant
      → (a : String) × (o ≡ some a) × (k a ≡ next user tenant)
  decoded-next (some a) k user tenant h = (a, refl, h)
  decoded-next none k user tenant h = cc

  unless-next :
      (b : Bool) (r : Reply) (user : User) (tenant : Tenant)
      → (if b then invalid_session else r) ≡ next user tenant
      → (b ≡ false) × (r ≡ next user tenant)
  unless-next true r user tenant h = cc
  unless-next false r user tenant h = (refl, h)

  admit-next :
      (b : Bool) (found user : User) (other tenant : Tenant)
      → (if b then next found other else forbidden) ≡ next user tenant
      → (b ≡ true) × (user ≡ found) × (other ≡ tenant)
  admit-next true found user other tenant h = (refl, cc, cc)
  admit-next false found user other tenant h = cc

  LetThrough-handle :
      (cookies : List (String × String)) (user : User) (tenant : Tenant)
      → handle tokens repos allowed cookies ≡ next user tenant
      → LetThrough cookies user tenant
  unfolding handle
  LetThrough-handle cookies user tenant h =
      let (given, h₁) = unless-next (str_eq (session_cookie cookies) "") _ user tenant h in
      let (token, decodes, h₂) =
        decoded-next (base64_decode (session_cookie cookies)) _ user tenant h₁ in
      let (session, stored, h₃) =
        or_invalid-next (get_by_token_hash (sha256 token)) _ user tenant h₂ in
      let (found, known, h₄) = or_invalid-next (get_user (get_user_id session)) _ user tenant h₃ in
      let (home, housed, h₅) =
        or_invalid-next (get_tenant (User.get_tenant_id found)) _ user tenant h₄ in
      let (user_role, linked, h₆) =
        or_invalid-next (get_user_role (User.get_tenant_id found) (User.get_id found)) _ user tenant
          h₅ in
      let (role, defined, h₇) =
        or_invalid-next (get_role (User.get_tenant_id found) (get_role_id user_role)) _ user tenant
          h₆ in
      let (permits, with_role, same_tenant) =
        admit-next (is_allowed allowed role.actions) _ user home tenant h₇ in
      let there : session_cookie cookies ≢ "" =
        λ p. cc (given, (eq_iff (session_cookie cookies) "").1 p) in
      record {
        token = token;
        session = session;
        found = found;
        user_role = user_role;
        role = role;
        cookie = session_cookie cookies;
        has_cookie = IsSessionCookie-session_cookie cookies there;
        given = there;
        decodes = decodes;
        has_session = stored;
        is_user = known;
        is_tenant = housed ∙ ap ok same_tenant;
        has_role = linked;
        is_role = defined;
        permits = is_allowed-Permits allowed role.actions permits;
        with_role = with_role;
      }

  handle-LetThrough :
      (cookies : List (String × String)) (user : User) (tenant : Tenant)
      → LetThrough cookies user tenant
      → handle tokens repos allowed cookies ≡ next user tenant
  unfolding handle
  handle-LetThrough cookies user tenant h = rw (
    session_cookie-eq cookies h.cookie h.has_cookie,
    str_eq_of_ne h.cookie "" h.given,
    h.decodes,
    h.has_session,
    h.is_user,
    h.is_tenant,
    h.has_role,
    h.is_role,
    Permits-is_allowed allowed (h.role).actions h.permits,
    h.with_role,
  )

-- The middleware calls the handler, with a user and a tenant, exactly if the first session cookie
-- is not empty and decodes to a token whose hash has a session; the session's user, the user's
-- tenant, the user's role entry and the role are found; the role permits one of the asked actions or
-- none are asked for; and the user it passes is the session's user with that role.
pub handle-next_iff :
    {E : Type 0} (tokens : Tokens) (repos : Repos E) (allowed : List ActionCode)
    (cookies : List (String × String)) (user : User) (tenant : Tenant)
    → (handle tokens repos allowed cookies ≡ next user tenant)
      ↔ LetThrough tokens repos allowed cookies user tenant
handle-next_iff tokens repos allowed cookies user tenant = (
  LetThrough-handle tokens repos allowed cookies user tenant,
  handle-LetThrough tokens repos allowed cookies user tenant,
)
