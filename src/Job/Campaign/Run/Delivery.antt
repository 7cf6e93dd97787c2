-- ===== src/Job/Campaign/Run/Delivery.antt =====
-- For whom a campaign that finishes has given mails to the mail service.
use mathlib.Core.Path.{ap₂, subst₂}
use mirror_backend.Common.{ℕ, List, [], ◌++◌, map, ◌≡◌, ◌∙◌, refl, sym, ap, ok}
use mirror_backend.Entity.Ud.{Ud}
use mirror_backend.Entity.Tenant.{Tenant, Sender}
use mirror_backend.Entity.Campaign.{
  Campaign, CampaignChange, get_tenant_id, get_ratio, get_progress, update,
}
use mirror_backend.Entity.Campaign.Update.{update-Updated}
use mirror_backend.Job.Campaign.Buckets.Cover.{sum}
use mirror_backend.Job.Campaign.Task.{
  set_completion_failed, State, returned, Services, ◌>>=◌, ◌>>◌, check,
}
use mirror_backend.Job.Campaign.Run.{ud_id, set_progress, change, save, deliver, run_campaign}
use mirror_backend.Job.Campaign.Run.Download.{Pages, download-Downloaded}
use mirror_backend.Job.Campaign.Run.Mails.{Sends-send_buckets}
use mirror_backend.Job.Campaign.Run.Preparing.{
  Silent-prepare, prepare-HoldBuckets, prepared_recipients-cover,
}
use mirror_backend.Job.Campaign.Run.Ensures.{
  Ensures, Ensures-bind, Ensures-weaken, Ensures_of_Silent, Ensures_of_Sends, Ensures-both,
  Ensures-or_fail, Ensures-current, Ensures-check, Ensures-change, Ensures-save,
}
use mirror_backend.Job.Campaign.Run.Trace.{recipients, Silent-save}

module _ {E : Type 0} (services : Services E) where
  update-campaign_emails :
      (now : ℕ) (n : CampaignChange) (c : Campaign)
      → (update now n c).0.campaign_emails ≡ c.campaign_emails
  update-campaign_emails now n c = (update-Updated now n c).kept_emails

  -- the recipients of a campaign that is delivered, and its progress
  abbrev Delivered : List Ud → State E → State E → Type 0
  Delivered uds s s' =
      (recipients s'.events ≡ recipients s.events ++ map ud_id uds)
      × (get_progress s'.campaign ≡ 100)

  get_progress_complete :
      (now : ℕ) (c : Campaign) → get_progress (update now (set_progress 100) c).0 ≡ 100
  get_progress_complete now c = (update-Updated now (set_progress 100) c).progress 100 refl

  -- the last steps
  complete :
      (s : State E)
      → Ensures
          (do
            change services (set_progress 100)
            failed_completion ← save services
            check set_completion_failed failed_completion)
          s
          (λ _ s'. (recipients s'.events ≡ recipients s.events) × (get_progress s'.campaign ≡ 100))
  complete s = Ensures-bind _ _ s _ _ (Ensures-change services _ s) λ _ t (changed, same).
      Ensures-bind _ _ t _ _
        (Ensures-both _ t (Ensures-save services t) (Ensures_of_Silent _ t (Silent-save services)))
        λ failed_completion t' ((kept, _), quiet).
          Ensures-weaken _ t' _ _ (Ensures-check _ _ t') λ _ s' (_, same'). (
            ap (λ (u : State E). recipients u.events) same' ∙ quiet ∙ ap recipients same,
            ap (λ (u : State E). get_progress u.campaign) same'
                ∙ ap get_progress kept
                ∙ ap get_progress changed
                ∙ get_progress_complete _ s.campaign,
          )

  deliver-Delivered :
      (tenant : Tenant) (sender : Sender) (uds : List Ud) (s : State E)
      → sum (map get_ratio s.campaign.campaign_emails) ≡ 100
      → Ensures (deliver services tenant sender uds) s (λ _ s'. Delivered uds s s')
  unfolding deliver
  deliver-Delivered tenant sender uds s total =
      Ensures-bind _ _ s _ _ (Ensures-change services _ s) λ _ t₁ (changed, same₁).
        Ensures-bind _ _ t₁ _ _
          (Ensures-both _ t₁ (Ensures-save services t₁)
            (Ensures_of_Silent _ t₁ (Silent-save services)))
          λ failed_running t₂ ((kept, _), quiet₂).
            Ensures-bind _ _ t₂ _ _ (Ensures-check _ _ t₂) λ _ t₃ (_, same₃).
              Ensures-bind _ _ t₃ _ _ (Ensures-current t₃) λ campaign t₄ (now, same₄).
                Ensures-bind _ _ t₄ _ _
                  (Ensures-both _ t₄
                    (prepare-HoldBuckets services tenant uds 0 campaign.campaign_emails t₄)
                    (Ensures_of_Silent _ t₄
                      (Silent-prepare services tenant uds 0 campaign.campaign_emails)))
                  λ ps t₅ (held, quiet₅).
                    Ensures-bind _ _ t₅ _ _
                      (Ensures_of_Sends _ t₅ _ (Sends-send_buckets services tenant sender ps))
                      λ _ t₆ sends.
                        let quiet : recipients t₅.events ≡ recipients s.events =
                          quiet₅
                          ∙ ap (λ (u : State E). recipients u.events) (same₄ ∙ same₃)
                          ∙ quiet₂
                          ∙ ap recipients same₁ in
                        let emails : campaign.campaign_emails ≡ s.campaign.campaign_emails =
                          ap (λ (c : Campaign). c.campaign_emails)
                            (now ∙ ap (λ (u : State E). u.campaign) same₃ ∙ kept ∙ changed)
                          ∙ update-campaign_emails _ _ s.campaign in
                        let whole =
                          prepared_recipients-cover uds campaign.campaign_emails ps
                            (ap (λ l. sum (map get_ratio l)) emails ∙ total) held in
                        Ensures-weaken _ t₆ _ _ (complete t₆)
                          λ _ s' (same₆, done). (same₆ ∙ sends ∙ ap₂ ◌++◌ quiet whole, done)

-- a campaign that has run to its end, and what it has done
abbrev Finished : {E : Type 0} → Services E → State E → State E → Type 0
Finished services s s' =
    (tenant : Tenant) × (n : ℕ) × (uds : List Ud) × (services.get_tenant (get_tenant_id s.campaign)
      ≡ ok tenant)
    × Pages services tenant s.campaign.segment_id n "" uds
    × (recipients s'.events ≡ recipients s.events ++ map ud_id uds)
    × (get_progress s'.campaign ≡ 100)

run_campaign-Delivered :
    {E : Type 0} (services : Services E) (fuel : ℕ) (s : State E)
    → sum (map get_ratio s.campaign.campaign_emails) ≡ 100
    → Ensures (run_campaign services fuel) s (λ _ s'. Finished services s s')
unfolding run_campaign
run_campaign-Delivered {E} services fuel s total =
    Ensures-bind _ _ s _ _ (Ensures-current s) λ campaign t₁ (now, same₁).
      Ensures-bind _ _ t₁ _ _ (Ensures-or_fail _ _ t₁) λ tenant t₂ (found, same₂).
        Ensures-bind _ _ t₂ _ _ (Ensures-or_fail _ _ t₂) λ sender t₃ (_, same₃).
          Ensures-bind _ _ t₃ _ _
            (download-Downloaded services fuel tenant campaign.segment_id [] "" t₃)
            λ uds t₄ (n, rest, pages, all, same₄).
              let same : t₄ ≡ s = same₄ ∙ same₃ ∙ same₂ ∙ same₁ in
              let known =
                ap (λ (u : State E). sum (map get_ratio u.campaign.campaign_emails)) same ∙ total in
              Ensures-weaken _ t₄ _ _ (deliver-Delivered services tenant sender uds t₄ known)
                λ _ s' (mails, done). (
                  tenant,
                  n,
                  uds,
                  ap (λ (c : Campaign). services.get_tenant (get_tenant_id c)) (sym now) ∙ found,
                  subst₂ (λ (c : Campaign) us. Pages services tenant c.segment_id n "" us) now
                      (sym all) pages,
                  mails ∙ ap (λ (u : State E). recipients u.events ++ map ud_id uds) same,
                  done,
                )

-- Where a campaign's goroutine returns with no error and the ratios of the campaign's emails add up
-- to 100, it has found the tenant, and the recipients of the mails that it has given to the mail
-- service are the ids in the segment's pages, in their order, and nobody else. The campaign's
-- progress is then 100.
pub run_campaign-delivers :
    {E : Type 0} (services : Services E) (fuel : ℕ) (s s' : State E)
    → sum (map get_ratio s.campaign.campaign_emails) ≡ 100
    → run_campaign services fuel s ≡ (returned tt, s')
    → (tenant : Tenant) × (n : ℕ) × (uds : List Ud) × (services.get_tenant
          (get_tenant_id s.campaign)
        ≡ ok tenant)
      × Pages services tenant s.campaign.segment_id n "" uds
      × (recipients s'.events ≡ recipients s.events ++ map ud_id uds)
      × (get_progress s'.campaign ≡ 100)
run_campaign-delivers services fuel s s' total h =
    (run_campaign-Delivered services fuel s total).at tt s' h
