-- ===== src/Entity/Campaign.antt =====
-- entity/campaign.go: campaigns and their emails. `CampaignStatus` is a uint32, and `now` is the
-- Unix time at which `Update` runs. The fields that only `GetCampaign` fills for its response
-- (`Email` and `CampaignResult`) are left out.
pub mod Update
use mirror_backend.Common.{
  ℕ, String, Bool, true, false, not, ◌&&◌, Option, none, some, List, ◌==◌, if◌then◌else◌, get_or,
  is_some,
}

abbrev pub CampaignStatus : Type 0
CampaignStatus = ℕ

abbrev pub campaign_status_unknown : CampaignStatus
campaign_status_unknown = 0

abbrev pub campaign_status_pending : CampaignStatus
campaign_status_pending = 1

abbrev pub campaign_status_running : CampaignStatus
campaign_status_running = 2

abbrev pub campaign_status_failed : CampaignStatus
campaign_status_failed = 3

abbrev pub campaign_status_deleted : CampaignStatus
campaign_status_deleted = 4

pub record CampaignEmail : Type 0 where
  pub id : Option ℕ
  pub campaign_id : Option ℕ
  pub email_id : Option ℕ
  pub subject : Option String
  pub ratio : Option ℕ

abbrev pub get_email_campaign_id : CampaignEmail → ℕ
get_email_campaign_id e = get_or 0 e.id

abbrev pub get_ratio : CampaignEmail → ℕ
get_ratio e = get_or 0 e.ratio

abbrev pub get_subject : CampaignEmail → String
get_subject e = get_or "" e.subject

pub record Campaign : Type 0 where
  pub id : Option ℕ
  pub name : Option String
  pub campaign_desc : Option String
  pub segment_id : Option ℕ
  pub segment_size : Option ℕ
  pub progress : Option ℕ
  pub sender_id : Option ℕ
  pub status : CampaignStatus
  pub campaign_emails : List CampaignEmail
  pub creator_id : Option ℕ
  pub tenant_id : Option ℕ
  pub schedule : Option ℕ
  pub create_time : Option ℕ
  pub update_time : Option ℕ

abbrev pub get_tenant_id : Campaign → ℕ
get_tenant_id e = get_or 0 e.tenant_id

abbrev pub get_sender_id : Campaign → ℕ
get_sender_id e = get_or 0 e.sender_id

abbrev pub get_segment_id : Campaign → ℕ
get_segment_id e = get_or 0 e.segment_id

abbrev pub get_segment_size : Campaign → ℕ
get_segment_size e = get_or 0 e.segment_size

abbrev pub get_progress : Campaign → ℕ
get_progress e = get_or 0 e.progress

-- the fields of `newCampaign` that `Update` reads
pub record CampaignChange : Type 0 where
  pub progress : Option ℕ
  pub segment_size : Option ℕ
  pub status : CampaignStatus

update_progress : CampaignChange → Campaign × Bool → Campaign × Bool
update_progress n (e, has_change) =
    if is_some n.progress && not (get_progress e == get_or 0 n.progress)
    then (record e { progress = n.progress }, true)
    else (e, has_change)

update_segment_size : CampaignChange → Campaign × Bool → Campaign × Bool
update_segment_size n (e, has_change) =
    if is_some n.segment_size && not (get_segment_size e == get_or 0 n.segment_size)
    then (record e { segment_size = n.segment_size }, true)
    else (e, has_change)

update_status : CampaignChange → Campaign × Bool → Campaign × Bool
update_status n (e, has_change) =
    if not (n.status == campaign_status_unknown) && not (e.status == n.status)
    then (record e { status = n.status }, true)
    else (e, has_change)

update_time : ℕ → Campaign × Bool → Campaign × Bool
update_time now (e, has_change) =
    if has_change then (record e { update_time = some now }, true) else (e, false)

-- the updated campaign, and whether it has changed
unfoldable pub update : ℕ → CampaignChange → Campaign → Campaign × Bool
unfolding update_progress update_segment_size update_status update_time
update now n e =
    update_time now (update_status n (update_segment_size n (update_progress n (e, false))))
