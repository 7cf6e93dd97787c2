-- ===== src/Handler/Tenants/Atomic.antt =====
-- `CreateTenant` of handler/tenant.go writes all or nothing.
use mirror_backend.Common.{String, Bool, true, false, get_or, if◌then◌else◌, Result, ok, err, ◌≡◌}
use mirror_backend.Action.{Action, Failure, message}
use mirror_backend.Action.Atomic.{Reads, IsSafe, IsAtomic, >>=-Reads, >>=-IsSafe, run_tx-IsSafe}
use mirror_backend.Handler.Users.{Services}
use mirror_backend.Handler.Users.Atomic.{check_valid-Reads}
use mirror_backend.Handler.Tenants.{TenantServices, CreateTenantRequest, expect_missing, missing_of}
use mirror_backend.Handler.Tenants.Founding.{
  create_tenant, insert_all, create_tenant_value, create_tenant_validator,
}
use mirror_backend.Validator.Form.{validate}

module _ {W E Db : Type 0} (db : W → Db) where
  missing_of-db :
      {A : Type 0} (p : Failure E → Bool) (c : Failure E) (w : W) (r : Result (Failure E) A × W)
      → db r.1 ≡ db w
      → db (missing_of p c r).1 ≡ db w
  missing_of-db p c w (ok a, v) h = h
  missing_of-db p c w (err e, v) h = go (p e)
    where
      go :
          (b : Bool)
          → db (if◌then◌else◌ {A = Result (Failure E) Unit × W} b (ok tt, v) (err e, v)).1 ≡ db w
      go true = h
      go false = h

  expect_missing-Reads :
      {A : Type 0} (m : Action W (Failure E) A) (p : Failure E → Bool) (c : Failure E)
      → Reads db m
      → Reads db (expect_missing m p c)
  expect_missing-Reads m p c h = record { same = λ w. missing_of-db p c w (m w) (h.same w) }

-- Where creating a tenant fails, at its roles or users too, the database is as before, if a
-- transaction is atomic and looking up a tenant only reads.
pub create_tenant-IsSafe :
    {W E Db : Type 0} (db : W → Db) (services : TenantServices W E) (req : CreateTenantRequest)
    → ((name : String) → Reads db (Services.get_tenant_by_name services.users name))
    → IsAtomic db (Services.tx_service services.users)
    → IsSafe db (create_tenant services req)
unfolding create_tenant
create_tenant-IsSafe {E = E} db services req reads atomic =
    let answer =
      validate (create_tenant_value req) (create_tenant_validator services.matches_domain) in
    let name = get_or "" req.name in
    >>=-IsSafe db _ _
      (>>=-Reads db _ _ (check_valid-Reads E db answer) λ _.
        expect_missing-Reads db (Services.get_tenant_by_name services.users name)
          services.is_tenant_not_found (message "tenant already exists") (reads name))
      λ _. run_tx-IsSafe db (Services.tx_service services.users) (insert_all services req) atomic
