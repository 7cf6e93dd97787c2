-- ===== src/Handler/Tenants/Domain.antt =====
-- When a tenant may send: `CreateSender` and `UpdateDnsRecords` of handler/tenant.go.
use mathlib.Core.Path.{subst}
use mirror_backend.Common.{Bool, true, false, not, ◌||◌, some, get_or, str_eq, ok, ◌≡◌, refl, sym}
use mirror_backend.Action.{
  message, panicked, ◌>>◌, or_fail, raise_if, >>=-eq-ok, pure-eq-ok, or_fail-eq-ok, raise_if-eq-ok,
}
use mirror_backend.Entity.Tenant.{Tenant, TenantExtInfo, Sender, get_email}
use mirror_backend.Handler.Values.{check_valid, get_tenant_id}
use mirror_backend.Handler.Tenants.{
  TenantServices, CreateSenderRequest, tenant_of, info_of, expect_missing,
}
use mirror_backend.Handler.Tenants.Sending.{
  create_sender, create_sender_value, create_sender_validator, with_email, is_verified, to_sender,
}
use mirror_backend.Validator.Form.{validate}

no_reason : (a b : Bool) → (a || not b) ≡ false → (a ≡ false) × (b ≡ true)
no_reason true b h = absurd cc
no_reason false true h = (refl, refl)
no_reason false false h = absurd cc

module _ {W E : Type 0} (services : TenantServices W E) where
  open services use {
    users, matches_local_part, make_sender, insert_sender, get_sender, is_sender_not_found,
  }
  open users use {now}

  -- the sender's address is at a domain of the tenant that is verified
  pub record IsVerified (req : CreateSenderRequest) (s : Sender) : Type 0 where
    pub tenant : Tenant
    pub info : TenantExtInfo
    pub of_context : req.context.tenant ≡ some tenant
    pub has_info : tenant.ext_info ≡ some info
    pub has_domain : str_eq info.domain "" ≡ false
    pub verified : is_verified info ≡ true
    pub of_tenant : s.tenant_id ≡ tenant.id
    pub address : s.email ≡ get_email s tenant

  -- A sender that is made belongs to the tenant of the request, whose domain is verified, and has
  -- its address at this domain.
  pub create_sender-IsVerified :
      (req : CreateSenderRequest) (w w' : W) (s : Sender)
      → create_sender services req w ≡ (ok s, w')
      → IsVerified req s
  unfolding create_sender to_sender get_email
  create_sender-IsVerified req w w' s h =
      let answer =
        validate (create_sender_value req) (create_sender_validator matches_local_part) in
      let (tenant, w1, h1, k1) = >>=-eq-ok (check_valid answer >> tenant_of req.context) _ w h in
      let (_, w0, _, k0) = >>=-eq-ok (check_valid answer) _ w h1 in
      let (of_context, _) = or_fail-eq-ok panicked req.context.tenant w0 k0 in
      let (info, w2, h2, k2) = >>=-eq-ok (info_of tenant) _ w1 k1 in
      let (has_info, _) = or_fail-eq-ok panicked tenant.ext_info w1 h2 in
      let refused =
        raise_if (str_eq info.domain "" || not (is_verified info))
          (message "domain is not verified") in
      let looked_up =
        expect_missing
          (get_sender (get_tenant_id req.context) (get_or "" req.name) (get_or "" req.local_part))
          is_sender_not_found (message "sender already exists") in
      let (time, w3, h3, k3) = >>=-eq-ok (refused >> looked_up >> now) _ w2 k2 in
      let (_, w4, h4, _) = >>=-eq-ok (refused >> looked_up) _ w2 h3 in
      let (_, w5, h5, _) = >>=-eq-ok refused _ w2 h4 in
      let (no_refusal, _) = raise_if-eq-ok _ (message "domain is not verified") w2 h5 in
      let (has_domain, verified) =
        no_reason (str_eq info.domain "") (is_verified info) no_refusal in
      let new = to_sender time tenant req in
      let (email, w6, h6, k6) = >>=-eq-ok (or_fail panicked (get_email new tenant)) _ w3 k3 in
      let (address, _) = or_fail-eq-ok panicked (get_email new tenant) w3 h6 in
      let sender = with_email new email in
      let (id, w7, _, k7) =
        >>=-eq-ok (make_sender (get_or "" req.name) email >> insert_sender sender) _ w6 k6 in
      let (same, _) = pure-eq-ok _ w7 k7 in
      subst (IsVerified req) same (record {
        tenant = tenant;
        info = info;
        of_context = of_context;
        has_info = has_info;
        has_domain = has_domain;
        verified = verified;
        of_tenant = refl;
        address = sym address;
      })
