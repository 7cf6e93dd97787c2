-- ===== src/Handler/Values.antt =====
-- handler/context.go, and the fields of requests as the validator sees them.
use mirror_backend.Common.{ℕ, String, Option, none, some, get_or, ok, ◌≡◌, refl}
use mirror_backend.Action.{Action, Failure, invalid_request, pure, raise}
use mirror_backend.Entity.User.{User}
use mirror_backend.Entity.Tenant.{Tenant}
use mirror_backend.Validator.{
  Any, nil_pointer, pointer, struct, Verdict, valid, no_field, field, str, uint64,
}

-- `if err := validator.Validate(req); err != nil { return errutil.ValidationError(err) }`
abbrev pub check_valid : {W E : Type 0} → Verdict → Action W (Failure E) Unit
check_valid valid = pure tt
check_valid _ = raise invalid_request

-- what the session middleware puts into a request
pub record ContextInfo : Type 0 where
  pub user : Option User
  pub tenant : Option Tenant

abbrev user_id_of : Option User → ℕ
user_id_of none = 0
user_id_of (some u) = get_or 0 u.id

abbrev tenant_id_of : Option Tenant → ℕ
tenant_id_of none = 0
tenant_id_of (some t) = get_or 0 t.id

abbrev tenant_name_of : Option Tenant → String
tenant_name_of none = ""
tenant_name_of (some t) = get_or "" t.name

abbrev pub get_user_id : ContextInfo → ℕ
get_user_id c = user_id_of c.user

abbrev pub get_tenant_id : ContextInfo → ℕ
get_tenant_id c = tenant_id_of c.tenant

abbrev pub get_tenant_name : ContextInfo → String
get_tenant_name c = tenant_name_of c.tenant

abbrev pub uint64_field : Option ℕ → Any
uint64_field none = nil_pointer
uint64_field (some n) = pointer (uint64 n)

abbrev pub string_field : Option String → Any
string_field none = nil_pointer
string_field (some s) = pointer (str s)

-- of a user and of a tenant, only the field that the validator reads
abbrev pub identified : Option ℕ → Any
identified id = pointer (struct (field "ID" "id,omitempty" (uint64_field id) no_field))

abbrev user_value : Option User → Any
user_value none = nil_pointer
user_value (some u) = identified u.id

abbrev tenant_value : Option Tenant → Any
tenant_value none = nil_pointer
tenant_value (some t) = identified t.id

abbrev pub context_value : ContextInfo → Any
context_value c =
    struct
      (field "User" "" (user_value c.user) (field "Tenant" "" (tenant_value c.tenant) no_field))

pub check_valid-eq-ok :
    {W E : Type 0} (v : Verdict) (w : W) {u : Unit} {w' : W}
    → check_valid {E = E} v w ≡ (ok u, w')
    → (v ≡ valid) × (w ≡ w')
check_valid-eq-ok valid w h = (refl, cc)
check_valid-eq-ok (Verdict.invalid e) w h = absurd cc
check_valid-eq-ok Verdict.unset_string w h = absurd cc
check_valid-eq-ok Verdict.unset_number w h = absurd cc
check_valid-eq-ok Verdict.panicked w h = absurd cc
