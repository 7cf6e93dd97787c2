-- ===== src/Handler/Tenants/Users.antt =====
-- The users that `CreateTenant` of handler/tenant.go makes.
use mathlib.Core.Path.{subst}
use mirror_backend.Common.{
  ℕ, true, false, none, some, List, [], ◌∷◌, map, get_or, Each, each_nil, each_cons, ok, ◌≡◌, refl,
  sym, ap, eq_of_some,
}
use mirror_backend.Action.{message, panicked, ◌>>◌, or_fail, >>=-eq-ok, pure-eq-ok, or_fail-eq-ok}
use mirror_backend.Action.Atomic.{IsAtomic, run_tx-commits}
use mirror_backend.Entity.Tenant.{Tenant}
use mirror_backend.Handler.Values.{check_valid}
use mirror_backend.Handler.Users.Creation.{
  CreateUserRequest, CreateUsersRequest, Made, create_users, first_id,
}
use mirror_backend.Handler.Users.Made.{IsMade}
use mirror_backend.Handler.Users.Created.{create_users-IsMade}
use mirror_backend.Handler.Users.Stored.{IsStored}
use mirror_backend.Handler.Tenants.{TenantServices, CreateTenantRequest, expect_missing}
use mirror_backend.Handler.Tenants.Founding.{
  create_tenant, insert_all, add_users, some_domain, to_tenant, create_tenant_value,
  create_tenant_validator, default_roles, role_for, with_role,
}
use mirror_backend.Validator.Form.{validate}

-- The entry is the request's, with the first of the roles.
pub record IsWithRole (role_ids : List ℕ) (asked given : CreateUserRequest) : Type 0 where
  pub same_email : given.email ≡ asked.email
  pub same_display_name : given.display_name ≡ asked.display_name
  pub same_password : given.password ≡ asked.password
  pub role_id : ℕ
  pub others : List ℕ
  pub is_first : role_ids ≡ role_id ∷ others
  pub has_role : given.role_id ≡ some role_id

map-with_role :
    (id : ℕ) (others : List ℕ) (us : List CreateUserRequest)
    → Each (IsWithRole (id ∷ others)) us (map (with_role id) us)
map-with_role id others [] = each_nil
map-with_role id others (u ∷ us) =
    each_cons
      (record {
        same_email = refl;
        same_display_name = refl;
        same_password = refl;
        role_id = id;
        others = others;
        is_first = refl;
        has_role = refl;
      })
      (map-with_role id others us)

first_id-cons :
    (ids : List ℕ) (id : ℕ) → first_id ids ≡ some id → (others : List ℕ) × (ids ≡ id ∷ others)
first_id-cons [] id h = absurd cc
first_id-cons (i ∷ ids) id h = (ids, ap (λ j. j ∷ ids) (eq_of_some h))

role_for-eq-ok :
    {W E : Type 0} (us : List CreateUserRequest) (ids : List ℕ) (w w' : W)
    (rs : List CreateUserRequest)
    → role_for {E = E} us ids w ≡ (ok rs, w')
    → Each (IsWithRole ids) us rs
role_for-eq-ok [] ids w w' rs h =
    let (same, _) = pure-eq-ok [] w h in subst (Each (IsWithRole ids) []) same each_nil
role_for-eq-ok (u ∷ us) ids w w' rs h =
    let (id, w1, h1, k1) = >>=-eq-ok (or_fail panicked (first_id ids)) _ w h in
    let (first, _) = or_fail-eq-ok panicked (first_id ids) w h1 in
    let (same, _) = pure-eq-ok (map (with_role id) (u ∷ us)) w1 k1 in
    let (others, all_ids) = first_id-cons ids id first in
    subst (Each (IsWithRole ids) (u ∷ us)) same (
      subst (λ l. Each (IsWithRole l) (u ∷ us) (map (with_role id) (u ∷ us))) (sym all_ids)
        (map-with_role id others (u ∷ us)))

module _ {W E Db : Type 0} (db : W → Db) (services : TenantServices W E) where
  open services use {
    users, create_folder, insert_tenant, create_store, insert_roles, parse_address, matches_domain,
    is_tenant_not_found,
  }
  open users use {now, tx_service, get_tenant_by_name}

  -- The tenant is new and normal, is inserted before it has its ID, and has the ID that this
  -- returns; its default roles are inserted; and all its users are made as they were asked for, but
  -- with the first of these roles for all, and are stored.
  pub record IsFounded (req : CreateTenantRequest) (tenant : Tenant) (made : List Made) (end : W)
      : Type 0 where
    pub tenant_id : ℕ
    pub requests : List CreateUserRequest
    pub role_ids : List ℕ
    pub v0 : W
    pub v1 : W
    pub v2 : W
    pub v3 : W
    pub has_id : tenant.id ≡ some tenant_id
    pub inserted : insert_tenant (record tenant { id = none }) v0 ≡ (ok tenant_id, v1)
    pub has_name : tenant.name ≡ req.name
    pub normal : tenant.status ≡ 1
    pub roles_inserted : insert_roles (default_roles tenant) v2 ≡ (ok role_ids, v3)
    pub one_role : Each (IsWithRole role_ids) req.users requests
    pub users_made : Each (IsMade users tenant_id) requests made
    pub users_stored : IsStored users made end

  -- What is stored of a new tenant up to its roles.
  record IsBegun (req : CreateTenantRequest) (tenant : Tenant) : Type 0 where
    tenant_id : ℕ
    v0 : W
    v1 : W
    has_id : tenant.id ≡ some tenant_id
    inserted : insert_tenant (record tenant { id = none }) v0 ≡ (ok tenant_id, v1)
    has_name : tenant.name ≡ req.name
    normal : tenant.status ≡ 1

  all_made :
      (tx-IsAtomic : IsAtomic db tx_service) (new : Tenant) (req : CreateTenantRequest)
      (requests : List CreateUserRequest) (role_ids : List ℕ) (w0 w1 w2 w3 w4 : W)
      (made : List Made)
      → IsBegun req new
      → insert_roles (default_roles new) w0 ≡ (ok role_ids, w1)
      → role_for {E = E} req.users role_ids w1 ≡ (ok requests, w2)
      → create_users users parse_address true
          (record { context = record { user = none; tenant = some new }; users = requests })
          w3
        ≡ (ok made, w4)
      → IsFounded req new made w4
  all_made tx-IsAtomic new req requests role_ids w0 w1 w2 w3 w4 made begun r h k =
      let (_, each, stored) =
        create_users-IsMade db users tx-IsAtomic parse_address true _ w3 w4 made k in
      record {
        tenant_id = begun.tenant_id;
        requests = requests;
        role_ids = role_ids;
        v0 = begun.v0;
        v1 = begun.v1;
        v2 = w0;
        v3 = w1;
        has_id = begun.has_id;
        inserted = begun.inserted;
        has_name = begun.has_name;
        normal = begun.normal;
        roles_inserted = r;
        one_role = role_for-eq-ok req.users role_ids w1 w2 requests h;
        users_made = subst (λ o. Each (IsMade users (get_or 0 o)) requests made) begun.has_id each;
        users_stored = stored;
      }

  add_users-eq-ok :
      (tx-IsAtomic : IsAtomic db tx_service) (new : Tenant) (req : CreateTenantRequest) (w w' : W)
      (tenant : Tenant) (made : List Made)
      → IsBegun req new
      → add_users services new req.users w ≡ (ok (tenant, made), w')
      → IsFounded req tenant made w'
  unfolding add_users
  add_users-eq-ok tx-IsAtomic new req w w' tenant made begun h =
      let store = create_store (get_or "" new.name) in
      let (role_ids, w1, h1, k1) = >>=-eq-ok (store >> insert_roles (default_roles new)) _ w h in
      let (_, w0, _, k0) = >>=-eq-ok store _ w h1 in
      let (requests, w2, h2, k2) = >>=-eq-ok (role_for req.users role_ids) _ w1 k1 in
      let created : CreateUsersRequest = record {
        context = record { user = none; tenant = some new };
        users = requests;
      } in
      let (made', w3, h3, k3) = >>=-eq-ok (create_users users parse_address true created) _ w2 k2 in
      let (same, last) = pure-eq-ok (new, made') w3 k3 in
      let founded =
        all_made tx-IsAtomic new req requests role_ids w0 w1 w2 w2 w3 made' begun k0 h2 h3 in
      subst (λ r. IsFounded req r.0 r.1 w') same (subst (IsFounded req new made') last founded)

  -- Where `CreateTenant` returns and a transaction is atomic, the tenant is normal, has the name of
  -- the request, is inserted and has the ID that this returns; its default roles are inserted; and
  -- for each user of the request, in order, there is a new user of this tenant, with the first of
  -- these roles. The users, the rows of their roles and their activations are inserted, and each user
  -- has the ID that this returns for it.
  pub create_tenant-IsFounded :
      (tx-IsAtomic : IsAtomic db tx_service) (req : CreateTenantRequest) (w w' : W)
      (tenant : Tenant) (made : List Made)
      → create_tenant services req w ≡ (ok (tenant, made), w')
      → IsFounded req tenant made w'
  unfolding create_tenant insert_all to_tenant
  create_tenant-IsFounded tx-IsAtomic req w w' tenant made h =
      let answer = validate (create_tenant_value req) (create_tenant_validator matches_domain) in
      let looked_up =
        expect_missing (get_tenant_by_name (get_or "" req.name)) is_tenant_not_found
          (message "tenant already exists") in
      let (_, w1, _, k1) = >>=-eq-ok (check_valid answer >> looked_up) _ w h in
      let body = run_tx-commits db tx_service false (insert_all services req) tx-IsAtomic k1 in
      let (records, w2, _, k2) =
        >>=-eq-ok (some_domain services (get_or "" req.domain)) _ w1 body in
      let (folder, w3, _, k3) = >>=-eq-ok (create_folder (get_or "" req.name)) _ w2 k2 in
      let (time, w4, _, k4) = >>=-eq-ok now _ w3 k3 in
      let new = to_tenant time req folder records in
      let (id, w5, h5, k5) = >>=-eq-ok (insert_tenant new) _ w4 k4 in
      let begun : IsBegun req (record new { id = some id }) = record {
        tenant_id = id;
        v0 = w4;
        v1 = w5;
        has_id = refl;
        inserted = h5;
        has_name = refl;
        normal = refl;
      } in
      add_users-eq-ok tx-IsAtomic (record new { id = some id }) req w5 w' tenant made begun k5
