-- ===== src/Job/Campaign/Task.antt =====
-- One campaign's goroutine in `Run` of job/run_campaigns/job.go. Its state is the campaign, which it
-- updates in place, and the trace of what it has done. What the services answer may depend on the
-- trace. The other goroutine, which applies the reported statuses, is not modelled: a report is an
-- event.
use mirror_backend.Common.{ℕ, String, Option, none, some, List, [], ◌∷◌, ◌++◌, Result, ok, err}
use mirror_backend.Entity.Ud.{Ud}
use mirror_backend.Entity.Tenant.{Tenant, Sender}
use mirror_backend.Entity.Campaign.{
  Campaign, CampaignEmail, CampaignStatus, campaign_status_running, campaign_status_failed,
}

-- dep.SendSmtpEmail
pub record SendSmtpEmail : Type 0 where
  pub campaign_email_id : ℕ
  pub from_email : String
  pub from_name : String
  pub to : List String
  pub subject : String
  pub html_content : String

pub data JobError (E : Type 0) : Type 0 where
  get_tenant_failed get_sender_failed download_uds_failed set_running_failed get_email_failed
        decode_failed unescape_failed send_email_failed update_progress_failed
        set_completion_failed :
      E → JobError E

pub data Event (E : Type 0) : Type 0 where
  reported : CampaignStatus → JobError E → Event E
  saved : Campaign → Event E
  sent : SendSmtpEmail → Event E

pub record State (E : Type 0) : Type 0 where
  pub campaign : Campaign
  pub events : List (Event E)

pub data Outcome (E A : Type 0) : Type 0 where
  returned : A → Outcome E A
  failed : JobError E → Outcome E A
  panicked : Outcome E A
  no_fuel : Outcome E A

-- what the goroutine calls; an error is an option whose `none` is nil
pub record Services (E : Type 0) : Type 0 where
  pub now : List (Event E) → ℕ
  pub get_tenant : ℕ → Result E Tenant
  pub get_sender : ℕ → ℕ → Result E Sender
  pub download_uds : Tenant → Option ℕ → String → Result E (List Ud × String)
  pub update_campaign : List (Event E) → Campaign → Option E
  pub get_email_html : Tenant → Option ℕ → Result E String
  pub base64_decode : String → Result E String
  pub query_unescape : String → Result E String
  pub send_email : List (Event E) → SendSmtpEmail → Option E

abbrev pub Task : Type 0 → Type 0 → Type 0
Task E A = State E → Outcome E A × State E

abbrev pub continue : {E A B : Type 0} → Outcome E A → (A → Task E B) → Task E B
continue (returned a) k s = k a s
continue (failed e) k s = (failed e, s)
continue panicked k s = (panicked, s)
continue no_fuel k s = (no_fuel, s)

infixl 5 ◌>>=◌ ◌>>◌
unfoldable pub ◌>>=◌ : {E A B : Type 0} → Task E A → (A → Task E B) → Task E B
◌>>=◌ m k s = continue (m s).0 k (m s).1

abbrev pub ◌>>◌ : {E B : Type 0} → Task E (Unit {0}) → Task E B → Task E B
m >> n = m >>= λ _. n

module _ {E : Type 0} where
  unfoldable pub pure : {A : Type 0} → A → Task E A
  pure a s = (returned a, s)

  unfoldable pub emit : Event E → Task E (Unit {0})
  emit e s = (returned tt, record s { events = s.events ++ e ∷ [] })

  unfoldable pub current : Task E Campaign
  current s = (returned s.campaign, s)

  -- `updateCampaignStatus(status, campaign, err)`
  unfoldable pub report : CampaignStatus → JobError E → Task E (Unit {0})
  unfolding emit
  report status e = emit (reported status e)

  -- report the failure, and return the error
  unfoldable pub fail : {A : Type 0} → JobError E → Task E A
  unfolding report
  fail e s = (failed e, (report campaign_status_failed e s).1)

  unfoldable pub or_fail : {A : Type 0} → (E → JobError E) → Result E A → Task E A
  unfolding fail
  or_fail why (ok a) = pure a
  or_fail why (err e) = fail (why e)

  unfoldable pub check : (E → JobError E) → Option E → Task E (Unit {0})
  unfolding fail
  check why none = pure tt
  check why (some e) = fail (why e)

  -- "log error only, keep the campaign going"
  unfoldable pub tolerate : (E → JobError E) → Option E → Task E (Unit {0})
  unfolding report
  tolerate why none = pure tt
  tolerate why (some e) = report campaign_status_running (why e)

  unfoldable pub or_panic : {A : Type 0} → Option A → Task E A
  or_panic none s = (panicked, s)
  or_panic (some a) s = (returned a, s)

  unfoldable pub out_of_fuel : {A : Type 0} → Task E A
  out_of_fuel s = (no_fuel, s)

-- an email of the campaign with its recipients and its content
pub record Prepared : Type 0 where
  pub email : CampaignEmail
  pub bucket : List String
  pub html : String
