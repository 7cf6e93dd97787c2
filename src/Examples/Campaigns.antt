-- ===== src/Examples/Campaigns.antt =====
-- A campaign of one email to two recipients, who come in two pages.
use mathlib.Core.List.{flatten}
use mirror_backend.Common.{
  ℕ, String, none, some, List, [], ◌∷◌, ◌++◌, map, Result, ok, str_eq, if◌then◌else◌, All, ◌≡◌, ◌↔◌,
  refl, arith, length,
}
use mirror_backend.Slices.{slice_range}
use mirror_backend.Entity.Ud.{Ud}
use mirror_backend.Entity.Tenant.{Tenant, Sender, get_email}
use mirror_backend.Entity.Campaign.{get_ratio, Campaign, get_tenant_id, get_progress, update}
use mirror_backend.Job.Campaign.Buckets.{bucket_count, email_buckets}
use mirror_backend.Job.Campaign.Buckets.Cover.{email_buckets-cover}
use mirror_backend.Job.Campaign.Buckets.Panics.{
  StartsInRange, email_buckets-returns_iff, two_emails-return, three_emails-panic,
}
use mirror_backend.Job.Campaign.Batches.{batches}
use mirror_backend.Job.Campaign.Batches.Cover.{IsBatch, batches_cover}
use mirror_backend.Job.Campaign.Task.{
  State, Services, returned, ◌>>=◌, pure, emit, current, report, fail, or_fail, check, tolerate,
  or_panic,
}
use mirror_backend.Job.Campaign.Run.{
  ud_id, progress_of, change, save, send, download, prepare, send_batch, send_batches, send_buckets,
  deliver, run_campaign,
}
use mirror_backend.Job.Campaign.Run.Trace.{recipients}
use mirror_backend.Job.Campaign.Run.Download.{Pages, last_page, next_page, download-returns}
use mirror_backend.Job.Campaign.Run.Returns.{HasContent, run_campaign-returns}
use mirror_backend.Job.Campaign.Run.Delivery.{run_campaign-delivers}

abbrev ud : String → Ud
ud name = record { id = some name; id_type = 1 }

abbrev uds : List Ud
uds = ud "ann" ∷ ud "bob" ∷ []

abbrev shop : Tenant
shop = record {
  id = some 1;
  name = some "shop";
  status = 1;
  ext_info =
      some (record {
        folder_id = "f";
        domain = "shop.io";
        dns_records = none;
        is_domain_valid = none;
      });
  create_time = some 0;
  update_time = some 0;
}

abbrev news_sender : Sender
news_sender = record {
  id = some 1;
  tenant_id = some 1;
  name = some "News";
  local_part = some "news";
  create_time = none;
  update_time = none;
  email = none;
}

abbrev page_at : String → Result String (List Ud × String)
page_at cursor = if str_eq cursor "" then ok (ud "ann" ∷ [], "next") else ok (ud "bob" ∷ [], "")

abbrev services : Services String
services = record {
  now = λ es. 1;
  get_tenant = λ id. ok shop;
  get_sender = λ tenant_id id. ok news_sender;
  download_uds = λ tenant segment_id cursor. page_at cursor;
  update_campaign = λ es c. none;
  get_email_html = λ tenant id. ok "html";
  base64_decode = λ s. ok s;
  query_unescape = λ s. ok s;
  send_email = λ es mail. some "the mail server is down";
}

abbrev spring : Campaign
spring = record {
  id = some 1;
  name = some "spring";
  campaign_desc = some "news";
  segment_id = some 3;
  segment_size = none;
  progress = some 0;
  sender_id = some 1;
  status = 1;
  campaign_emails =
      record {
        id = some 5;
        campaign_id = some 1;
        email_id = some 9;
        subject = some "hello";
        ratio = some 100;
      }
      ∷ [];
  creator_id = some 1;
  tenant_id = some 1;
  schedule = some 0;
  create_time = some 10;
  update_time = some 10;
}

abbrev start : State String
start = record { campaign = spring; events = [] }

ran : run_campaign services 2 start ≡ (returned tt, (run_campaign services 2 start).1)
unfolding run_campaign ◌>>=◌ current or_fail pure download deliver change save check prepare update
    or_panic slice_range bucket_count send_buckets batches send_batches get_email progress_of send
    send_batch emit fail report tolerate
ran = refl

buckets : (bs : List (List Ud)) × (email_buckets uds 0 (60 ∷ 40 ∷ []) ≡ some bs)
buckets = two_emails-return uds 60 40 refl

email_buckets-cover_example : flatten buckets.0 ≡ uds
email_buckets-cover_example = email_buckets-cover uds (60 ∷ 40 ∷ []) buckets.0 refl buckets.1

email_buckets-returns_iff_example :
    ((bs : List (List Ud)) × (email_buckets uds 0 (60 ∷ 40 ∷ []) ≡ some bs))
    ↔ StartsInRange (length uds) 0 (60 ∷ 40 ∷ [])
email_buckets-returns_iff_example = email_buckets-returns_iff uds (60 ∷ 40 ∷ [])

three_emails-panic_example : email_buckets (ud "ann" ∷ []) 0 (40 ∷ 40 ∷ 20 ∷ []) ≡ none
three_emails-panic_example = three_emails-panic (ud "ann") 40 40 20 [] (omega arith) (omega arith)

batches_cover_example :
    (bs : List (List Ud)) × (batches 500 uds ≡ some bs) × (flatten bs ≡ uds) × All (IsBatch 500) bs
batches_cover_example = batches_cover 500 uds (omega arith)

pages : Pages services shop (some 3) 2 "" uds
pages = next_page (ud "ann" ∷ []) refl (λ p. cc) (last_page (ud "bob" ∷ []) refl)

download-returns_example : download services 2 shop (some 3) [] "" start ≡ (returned uds, start)
download-returns_example = download-returns services shop (some 3) pages 2 [] start (omega arith)

run_campaign-delivers_example :
    (tenant : Tenant) × (n : ℕ) × (us : List Ud) × (services.get_tenant
        (get_tenant_id start.campaign)
      ≡ ok tenant)
    × Pages services tenant start.campaign.segment_id n "" us
    × (recipients (run_campaign services 2 start).1.events
        ≡ recipients start.events ++ map ud_id us)
    × (get_progress (run_campaign services 2 start).1.campaign ≡ 100)
run_campaign-delivers_example =
    run_campaign-delivers services 2 start (run_campaign services 2 start).1 refl ran

spring-HasContent : All (HasContent services shop) spring.campaign_emails
spring-HasContent = (("html", "html", "html", refl, refl, refl), tt)

spring-StartsInRange : StartsInRange (length uds) 0 (map get_ratio spring.campaign_emails)
spring-StartsInRange = (omega arith, tt)

address : get_email news_sender shop ≡ some "news@shop.io"
unfolding get_email
address = refl

run_campaign-returns_example :
    (s' : State String) × (run_campaign services 2 start ≡ (returned tt, s'))
run_campaign-returns_example =
    run_campaign-returns services 2 2 start shop news_sender "news@shop.io" uds refl refl address
      pages (omega arith) spring-HasContent spring-StartsInRange (λ u. refl)
