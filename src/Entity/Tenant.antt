-- ===== src/Entity/Tenant.antt =====
-- entity/tenant.go and entity/sender.go. The DNS records are kept as the JSON text by which
-- `IsDnsRecordsEqual` compares them; `none` is the nil map.
use Prim.Native.String.{◌++◌}
use mirror_backend.Common.{
  ℕ, String, Bool, true, false, not, ◌&&◌, ◌||◌, Option, none, some, ◌==◌, if◌then◌else◌, get_or,
  is_some, str_eq,
}

abbrev pub TenantStatus : Type 0
TenantStatus = ℕ

abbrev pub tenant_status_unknown : TenantStatus
tenant_status_unknown = 0

abbrev pub tenant_status_normal : TenantStatus
tenant_status_normal = 1

abbrev pub tenant_status_deleted : TenantStatus
tenant_status_deleted = 2

pub record TenantExtInfo : Type 0 where
  pub folder_id : String
  pub domain : String
  pub dns_records : Option String
  pub is_domain_valid : Option Bool

-- new(TenantExtInfo)
abbrev pub empty_ext_info : TenantExtInfo
empty_ext_info = record { folder_id = ""; domain = ""; dns_records = none; is_domain_valid = none }

abbrev get_is_domain_valid : TenantExtInfo → Bool
get_is_domain_valid e = get_or false e.is_domain_valid

pub record Tenant : Type 0 where
  pub id : Option ℕ
  pub name : Option String
  pub status : TenantStatus
  pub ext_info : Option TenantExtInfo
  pub create_time : Option ℕ
  pub update_time : Option ℕ

abbrev pub get_id : Tenant → ℕ
get_id e = get_or 0 e.id

abbrev pub get_name : Tenant → String
get_name e = get_or "" e.name

pub record Sender : Type 0 where
  pub id : Option ℕ
  pub tenant_id : Option ℕ
  pub name : Option String
  pub local_part : Option String
  pub create_time : Option ℕ
  pub update_time : Option ℕ
  pub email : Option String

abbrev pub get_sender_name : Sender → String
get_sender_name s = get_or "" s.name

-- `GetEmail` of a sender: `none` is the panic at a tenant with no `ExtInfo`
unfoldable pub get_email : Sender → Tenant → Option String
get_email s tenant = elim (tenant.ext_info) [
  | none ↦ none
  | some info ↦ some (get_or "" s.local_part ++ ("@" ++ info.domain))
]

update_folder_id : TenantExtInfo → TenantExtInfo × Bool → TenantExtInfo × Bool
update_folder_id n (e, has_change) =
    if not (str_eq n.folder_id "") && not (str_eq e.folder_id n.folder_id)
    then (record e { folder_id = n.folder_id }, true)
    else (e, has_change)

update_domain : TenantExtInfo → TenantExtInfo × Bool → TenantExtInfo × Bool
update_domain n (e, has_change) =
    if not (str_eq n.domain "") && not (str_eq e.domain n.domain)
    then (record e { domain = n.domain }, true)
    else (e, has_change)

update_dns_records : TenantExtInfo → TenantExtInfo × Bool → TenantExtInfo × Bool
update_dns_records n (e, has_change) =
    if is_some n.dns_records
      && (not (is_some e.dns_records)
          || not (str_eq (get_or "" n.dns_records) (get_or "" e.dns_records)))
    then (record e { dns_records = n.dns_records }, true)
    else (e, has_change)

same_bool : Bool → Bool → Bool
same_bool true b = b
same_bool false b = not b

update_is_domain_valid : TenantExtInfo → TenantExtInfo × Bool → TenantExtInfo × Bool
update_is_domain_valid n (e, has_change) =
    if is_some n.is_domain_valid && not (same_bool (get_is_domain_valid e) (get_is_domain_valid n))
    then (record e { is_domain_valid = n.is_domain_valid }, true)
    else (e, has_change)

-- the branch on `newTenant.ExtInfo`
unfoldable pub update_ext_info :
    Option TenantExtInfo → Option TenantExtInfo → Bool → Option TenantExtInfo × Bool
unfolding update_folder_id update_domain update_dns_records same_bool update_is_domain_valid
update_ext_info none old has_change = (old, has_change)
update_ext_info (some n) old has_change =
    let (e, changed) = update_is_domain_valid n (
      update_dns_records n
        (update_domain n (update_folder_id n (get_or empty_ext_info old, has_change)))) in
    (some e, changed)

-- `newTenant` gives its status and its `ExtInfo`
unfoldable pub update : ℕ → TenantStatus → Option TenantExtInfo → Tenant → Tenant × Bool
update now status ext_info e =
    let new_status = not (status == tenant_status_unknown) && not (e.status == status) in
    let (info, has_change) = update_ext_info ext_info e.ext_info new_status in
    let e' = record e { status = (if new_status then status else e.status); ext_info = info } in
    if has_change then (record e' { update_time = some now }, true) else (e', false)
