-- ===== src/Handler/Campaign/Accepted.antt =====
-- When `CreateCampaign` returns a campaign.
use mathlib.Core.Path.{subst, ap₂}
use mirror_backend.Common.{
  ℕ, ◌%◌, ◌^◌, none, some, List, [], ◌∷◌, map, All, Each, each_cons, get_or, ok, ◌≡◌, ◌↔◌, refl,
  sym, ap, arith,
}
use mirror_backend.Entity.Campaign.{Campaign, CampaignEmail, get_ratio}
use mirror_backend.Job.Campaign.Buckets.Cover.{sum}
use mirror_backend.Handler.Campaign.{
  RequestEmail, CreateCampaignRequest, add_ratios, to_campaign_email, to_campaign, Services,
  check_emails, create_campaign,
}
use mirror_backend.Handler.Campaign.Created.{
  IsEmailOf, add_ratios-sum, Created, create_campaign-Created,
}

Each-to_campaign_email :
    (rs : List RequestEmail) (es : List CampaignEmail)
    → Each IsEmailOf rs es
    → es ≡ map to_campaign_email rs
Each-to_campaign_email [] [] h = refl
Each-to_campaign_email [] (e ∷ es) h = elim h [ ]
Each-to_campaign_email (r ∷ rs) [] h = elim h [ ]
Each-to_campaign_email (r ∷ rs) (e ∷ es) (each_cons h hs) =
    let same : e ≡ to_campaign_email r =
      cc (h.no_id, h.no_campaign_id, h.same_email_id, h.same_subject, h.same_ratio) in
    ap₂ ◌∷◌ same (Each-to_campaign_email rs es hs)

module _ {E : Type 0} (services : Services E) where
  open services use {get_sender, get_email, create}

  as_asked :
      (now : ℕ) (req : CreateCampaignRequest) (c : Campaign) (h : Created services now req c)
      → c ≡ record (to_campaign now req) { id = some (h.id) }
  unfolding to_campaign
  as_asked now req c h =
      let emails = Each-to_campaign_email req.emails c.campaign_emails h.same_emails in
      cc (
        emails, h.has_id, h.same_name, h.same_campaign_desc, h.same_segment_id, h.same_sender_id,
        h.has_creator, h.has_tenant, h.has_schedule, h.pending, h.no_progress, h.no_segment_size,
        h.create_time, h.update_time,
      )

  none-check_emails :
      (tenant_id : ℕ) (es : List CampaignEmail)
      → All (λ (e : CampaignEmail). get_email tenant_id e.email_id ≡ none) es
      → check_emails services tenant_id es ≡ none
  unfolding check_emails
  none-check_emails tenant_id [] h = refl
  none-check_emails tenant_id (e ∷ es) (found, later) =
      rw (found, none-check_emails tenant_id es later) refl

  Created-create_campaign :
      (now : ℕ) (req : CreateCampaignRequest) (c : Campaign)
      → Created services now req c
      → create_campaign services now req ≡ ok c
  unfolding create_campaign to_campaign
  Created-create_campaign now req c h =
      let emails = Each-to_campaign_email req.emails c.campaign_emails h.same_emails in
      let same = as_asked now req c h in
      let total : sum (map get_ratio (map to_campaign_email req.emails)) % 2 ^ 64 ≡ 100 =
        subst (λ es. sum (map get_ratio es) % 2 ^ 64 ≡ 100) emails h.ratios in
      let hundred : add_ratios 0 req.emails ≡ 100 =
        omega (arith, add_ratios-sum 0 req.emails (omega arith), total) in
      let all_found =
        none-check_emails (get_or 0 req.tenant_id) (map to_campaign_email req.emails) (
          subst (All (λ (e : CampaignEmail). get_email (get_or 0 req.tenant_id) e.email_id ≡ none))
            emails h.has_emails) in
      let stored : create (to_campaign now req) ≡ ok (h.id) =
        subst (λ d. create (record d { id = none }) ≡ ok (h.id)) same h.stored in
      rw (h.is_valid, hundred, h.has_sender, all_found, stored) (sym (ap ok same))

  -- `CreateCampaign` returns a campaign exactly where the request is valid; the ratios of the
  -- campaign's emails add up to 100, as a uint64; the sender and each email are found; the campaign
  -- has the name, the description, the segment, the sender, the emails and the schedule of the
  -- request, its user and its tenant; it is pending, with no progress and a segment size of 0, and
  -- both times are `now`; and it was stored before it got its ID, which is the one that the
  -- repository gave.
  pub create_campaign-ok_iff :
      (now : ℕ) (req : CreateCampaignRequest) (c : Campaign)
      → (create_campaign services now req ≡ ok c) ↔ Created services now req c
  create_campaign-ok_iff now req c =
      (create_campaign-Created services now req c, Created-create_campaign now req c)
