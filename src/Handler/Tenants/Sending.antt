-- ===== src/Handler/Tenants/Sending.antt =====
-- `CreateDomain`, `CreateSender`, `GetSenders` and `UpdateDnsRecords` of handler/tenant.go.
use mirror_backend.Common.{
  ℕ, String, Bool, false, not, ◌||◌, Option, none, some, List, [], ◌∷◌, if◌then◌else◌, get_or,
  str_eq,
}
use mirror_backend.Action.{Action, Failure, message, panicked, pure, raise_if, or_fail, ◌>>=◌, ◌>>◌}
use mirror_backend.Entity.Tenant.{
  Tenant, TenantExtInfo, Sender, empty_ext_info, get_email, tenant_status_unknown, update,
}
use mirror_backend.Handler.Values.{
  ContextInfo, check_valid, get_tenant_id, string_field, context_value,
}
use mirror_backend.Handler.Users.{context_request_value, context_request_validator}
use mirror_backend.Validator.{
  Any, pointer, struct, no_field, field, ValidateError, custom, Validator, string_validator,
  no_entry, entry,
}
use mirror_backend.Validator.Form.{validate}
use mirror_backend.Validator.Requests.{
  must_form, string_rule, domain_validator, context_info_validator,
}
use mirror_backend.Handler.Tenants.{
  TenantServices, CreateDomainRequest, CreateSenderRequest, expect_missing, or_default, tenant_of,
  info_of,
}

abbrev pub create_domain_value : CreateDomainRequest → Any
create_domain_value req = pointer (
    struct (
      field "ContextInfo" "" (context_value req.context)
        (field "Domain" "domain,omitempty" (string_field req.domain) no_field)))

abbrev pub create_domain_validator : (String → Bool) → Validator
create_domain_validator matches = must_form (
    entry "ContextInfo" (context_info_validator false false)
      (entry "domain" (domain_validator matches false) no_entry))

abbrev check_local_part : (String → Bool) → String → Option ValidateError
check_local_part matches s = if matches s then none else some (custom "invalid email local part")

abbrev pub create_sender_value : CreateSenderRequest → Any
create_sender_value req = pointer (
    struct (
      field "ContextInfo" "" (context_value req.context) (
        field "Name" "name,omitempty" (string_field req.name)
          (field "LocalPart" "local_part,omitempty" (string_field req.local_part) no_field))))

abbrev pub create_sender_validator : (String → Bool) → Validator
create_sender_validator matches = must_form (
    entry "ContextInfo" (context_info_validator false false) (
      entry "name" (string_validator (record (string_rule false) { max_len = 64 })) (
        entry "local_part"
          (string_validator (record (string_rule false) {
            max_len = 64;
            validators = some (check_local_part matches) ∷ [];
          }))
          no_entry)))

unfoldable pub to_sender : ℕ → Tenant → CreateSenderRequest → Sender
to_sender now tenant req = record {
  id = none;
  tenant_id = tenant.id;
  name = req.name;
  local_part = req.local_part;
  create_time = some now;
  update_time = some now;
  email = none;
}

-- `GetIsDomainValid`
abbrev pub is_verified : TenantExtInfo → Bool
is_verified info = get_or false info.is_domain_valid

-- `GetEmail` for each sender
abbrev pub with_email : Sender → String → Sender
with_email sender email = record sender { email = some email }

abbrev with_first : Sender → Option String → Option (List Sender) → Option (List Sender)
with_first s (some email) (some rest) = some (with_email s email ∷ rest)
with_first s _ _ = none

unfoldable pub with_emails : Tenant → List Sender → Option (List Sender)
with_emails tenant [] = some []
with_emails tenant (s ∷ ss) = with_first s (get_email s tenant) (with_emails tenant ss)

module _ {W E : Type 0} (services : TenantServices W E) where
  open services use {
    users, matches_domain, matches_local_part, parse_address, is_tenant_not_found,
    is_sender_not_found, make_domain, get_domain_config, authenticate_domain, make_sender,
    create_folder, create_store, insert_tenant, update_tenant, insert_roles, get_sender,
    insert_sender, get_senders,
  }
  open users use {now, tx_service, get_tenant_by_name}

  unfoldable pub create_domain : CreateDomainRequest → Action W (Failure E) (Tenant × String)
  create_domain req =
      check_valid (validate (create_domain_value req) (create_domain_validator matches_domain))
      >> make_domain (get_or "" req.domain)
      >>= λ dns_records. tenant_of req.context >>= λ tenant. now >>= λ time.
          let info = record empty_ext_info {
            domain = get_or "" req.domain;
            dns_records = some dns_records;
          } in
          let changed = (update time tenant_status_unknown (some info) tenant).0 in
          update_tenant changed >> pure (changed, dns_records)

  unfoldable pub create_sender : CreateSenderRequest → Action W (Failure E) Sender
  unfolding to_sender
  create_sender req =
      check_valid (validate (create_sender_value req) (create_sender_validator matches_local_part))
      >> tenant_of req.context
      >>= λ tenant. info_of tenant >>= λ info.
          raise_if (str_eq info.domain "" || not (is_verified info))
            (message "domain is not verified")
          >> expect_missing
              (get_sender (get_tenant_id req.context) (get_or "" req.name)
                (get_or "" req.local_part))
              is_sender_not_found (message "sender already exists")
          >> now
          >>= λ time.
              let new = to_sender time tenant req in
              or_fail panicked (get_email new tenant) >>= λ email.
              let sender = with_email new email in
              make_sender (get_or "" req.name) email >> insert_sender sender >>= λ id.
              pure (record sender { id = some id })

  unfoldable pub list_senders : ContextInfo → Action W (Failure E) (List Sender)
  list_senders c =
      check_valid (validate (context_request_value c) context_request_validator)
      >> get_senders (get_tenant_id c)
      >>= λ senders. tenant_of c >>= λ tenant. or_fail panicked (with_emails tenant senders)

  -- A failed authentication is logged, and counts as a domain that is not verified.
  unfoldable pub update_dns_records : ContextInfo → Action W (Failure E) (Tenant × Bool)
  update_dns_records c =
      check_valid (validate (context_request_value c) context_request_validator)
      >> tenant_of c
      >>= λ tenant. info_of tenant >>= λ info.
          raise_if (str_eq info.domain "") (message "domain is empty")
          >> get_domain_config info.domain
          >>= λ dns_records. or_default (authenticate_domain info.domain) false >>= λ verified.
              now >>= λ time.
              let new = record empty_ext_info {
                is_domain_valid = some verified;
                dns_records = some dns_records;
              } in
              let changed = (update time tenant_status_unknown (some new) tenant).0 in
              update_tenant changed >> pure (changed, verified)
