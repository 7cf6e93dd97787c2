-- ===== src/Job/Campaign/Run.antt =====
-- The body of one campaign's goroutine in `Run` of job/run_campaigns/job.go, over the actions of
-- `Job.Campaign.Task`. The fuel bounds the pages that the download loop asks for.
pub mod Trace
pub mod Ensures
pub mod Download
pub mod Mails
pub mod Preparing
pub mod Delivery
pub mod Returning
pub mod Returns
use mirror_backend.Common.{
  ℕ, zero, suc, ◌+◌, ◌*◌, ◌/◌, String, Option, none, some, List, [], ◌∷◌, ◌++◌, map, ltb, str_eq,
  if◌then◌else◌, length,
}
use mirror_backend.Slices.{slice_range}
use mirror_backend.Entity.Ud
use mirror_backend.Entity.Ud.{Ud}
use mirror_backend.Entity.Tenant.{Tenant, Sender, get_email, get_sender_name}
use mirror_backend.Entity.Tenant
use mirror_backend.Entity.Campaign.{
  Campaign, CampaignEmail, CampaignChange, campaign_status_running, campaign_status_unknown,
  get_tenant_id, get_sender_id, get_segment_size, get_ratio, get_email_campaign_id, get_subject,
  update,
}
use mirror_backend.Job.Campaign.Buckets.{bucket_count, min}
use mirror_backend.Job.Campaign.Batches.{batches, max_recipients_per_send}
use mirror_backend.Job.Campaign.Task.{
  SendSmtpEmail, JobError, get_tenant_failed, get_sender_failed, download_uds_failed,
  set_running_failed, get_email_failed, decode_failed, unescape_failed, send_email_failed,
  update_progress_failed, set_completion_failed, Event, saved, sent, State, Outcome, returned,
  out_of_fuel, Services, Task, ◌>>=◌, ◌>>◌, pure, emit, current, or_fail, check, tolerate, or_panic,
  Prepared,
}

abbrev pub ud_id : Ud → String
ud_id u = Ud.get_id (some u)

abbrev pub set_progress : ℕ → CampaignChange
set_progress n = record { progress = some n; segment_size = none; status = campaign_status_unknown }

abbrev pub set_running : ℕ → CampaignChange
set_running size = record {
  progress = none;
  segment_size = some size;
  status = campaign_status_running;
}

-- count * 100 / segment size, or 0 for an empty segment
unfoldable pub progress_of : ℕ → ℕ → ℕ
progress_of count size = if ltb 0 size then count * 100 / size else 0

module _ {E : Type 0} (services : Services E) where
  open services use {
    now, get_tenant, get_sender, download_uds, update_campaign, get_email_html, base64_decode,
    query_unescape, send_email,
  }

  -- campaign.Update(...)
  unfoldable pub change : CampaignChange → Task E (Unit {0})
  change n s = (returned tt, record s { campaign = (update (now s.events) n s.campaign).0 })

  -- h.campaignRepo.Update(ctx, campaign)
  unfoldable pub save : Task E (Option E)
  save s = (
    returned (update_campaign s.events s.campaign),
    record s { events = s.events ++ saved s.campaign ∷ [] },
  )

  -- h.emailService.SendEmail(ctx, mail)
  unfoldable pub send : SendSmtpEmail → Task E (Option E)
  send mail s =
      (returned (send_email s.events mail), record s { events = s.events ++ sent mail ∷ [] })

  unfoldable pub download : ℕ → Tenant → Option ℕ → List Ud → String → Task E (List Ud)
  download zero tenant segment_id uds cursor = out_of_fuel
  download (suc fuel) tenant segment_id uds cursor = do
    (page, next) ← or_fail download_uds_failed (download_uds tenant segment_id cursor)
    let more = download fuel tenant segment_id (uds ++ page) next
    if str_eq next "" then pure (uds ++ page) else more

  -- "group emails into buckets and fetch htmls", from position `pos`
  unfoldable pub prepare : Tenant → List Ud → ℕ → List CampaignEmail → Task E (List Prepared)
  prepare tenant uds pos [] = pure []
  prepare tenant uds pos (email ∷ emails) = do
    let count = bucket_count (length uds) (get_ratio email)
    bucket ← or_panic (slice_range uds pos (min (length uds) (pos + count)))
    encoded ← or_fail get_email_failed (get_email_html tenant email.email_id)
    decoded ← or_fail decode_failed (base64_decode encoded)
    html ← or_fail unescape_failed (query_unescape decoded)
    rest ← prepare tenant uds (pos + count) emails
    pure (record { email = email; bucket = map ud_id bucket; html = html } ∷ rest)

  -- one round of the loop over the batches of a bucket; `count` includes the batch
  unfoldable pub send_batch : Tenant → Sender → Prepared → ℕ → List String → Task E (Unit {0})
  send_batch tenant sender p count to = do
    from_email ← or_panic (get_email sender tenant)
    campaign ← current
    failed_send ← send (record {
      campaign_email_id = get_email_campaign_id p.email;
      from_email = from_email;
      from_name = get_sender_name sender;
      to = to;
      subject = get_subject p.email;
      html_content = p.html;
    })
    tolerate send_email_failed failed_send
    change (set_progress (progress_of count (get_segment_size campaign)))
    failed_save ← save
    tolerate update_progress_failed failed_save

  unfoldable pub send_batches :
      Tenant → Sender → Prepared → ℕ → List (List String) → Task E (Unit {0})
  send_batches tenant sender p count [] = pure tt
  send_batches tenant sender p count (to ∷ rest) = do
    send_batch tenant sender p (count + length to) to
    send_batches tenant sender p (count + length to) rest

  unfoldable pub send_buckets : Tenant → Sender → List Prepared → Task E (Unit {0})
  send_buckets tenant sender [] = pure tt
  send_buckets tenant sender (p ∷ ps) = do
    parts ← or_panic (batches max_recipients_per_send p.bucket)
    send_batches tenant sender p 0 parts
    send_buckets tenant sender ps

  -- from the recipients on: set to running, prepare, send, complete
  unfoldable pub deliver : Tenant → Sender → List Ud → Task E (Unit {0})
  deliver tenant sender uds = do
    change (set_running (length uds))
    failed_running ← save
    check set_running_failed failed_running
    campaign ← current
    prepared ← prepare tenant uds 0 campaign.campaign_emails
    send_buckets tenant sender prepared
    change (set_progress 100)
    failed_completion ← save
    check set_completion_failed failed_completion

  unfoldable pub run_campaign : ℕ → Task E (Unit {0})
  run_campaign fuel = do
    campaign ← current
    tenant ← or_fail get_tenant_failed (get_tenant (get_tenant_id campaign))
    sender ← or_fail get_sender_failed (get_sender (Tenant.get_id tenant) (get_sender_id campaign))
    uds ← download fuel tenant campaign.segment_id [] ""
    deliver tenant sender uds
