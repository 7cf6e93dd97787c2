-- ===== src/Job/Campaign/Run/Returns.antt =====
-- When a campaign's goroutine returns with no error.
use mathlib.Core.Path.{subst}
use mirror_backend.Common.{
  ℕ, ◌+◌, ◌≤◌, String, Option, none, some, List, [], ◌∷◌, map, All, ◌≡◌, ◌∙◌, refl, sym, ap, arith,
  ok, length,
}
use mirror_backend.Entity.Ud.{Ud}
use mirror_backend.Entity.Tenant
use mirror_backend.Entity.Tenant.{Tenant, TenantExtInfo, Sender, get_email}
use mirror_backend.Entity.Campaign.{
  Campaign, CampaignEmail, get_tenant_id, get_sender_id, get_ratio,
}
use mirror_backend.Entity.Campaign.Update.{update-Updated}
use mirror_backend.Job.Campaign.Buckets.{bucket_count}
use mirror_backend.Job.Campaign.Buckets.Panics.{StartsInRange, first_slice}
use mirror_backend.Job.Campaign.Batches.{max_recipients_per_send}
use mirror_backend.Job.Campaign.Batches.Cover.{batches_cover}
use mirror_backend.Job.Campaign.Task.{State, returned, Services, current, Prepared}
use mirror_backend.Job.Campaign.Run.{
  save, prepare, send_batch, send_batches, send_buckets, deliver, run_campaign,
}
use mirror_backend.Job.Campaign.Run.Returning.{
  Returns, Returns-bind, Returns-known, Returns-pure, or_fail-ok, or_panic-some, Returns-tolerate,
  Returns-check, Returns-current, Returns-change, Returns-save, Returns-send,
}
use mirror_backend.Job.Campaign.Run.Ensures.{
  Ensures-change, Ensures-save, Ensures-check, Ensures-current,
}
use mirror_backend.Job.Campaign.Run.Download.{Pages, download-returns}

-- the content of an email of the campaign can be fetched and decoded
abbrev pub HasContent : {E : Type 0} → Services E → Tenant → CampaignEmail → Type 0
HasContent services tenant email =
    (encoded : String) × (decoded : String) × (html : String) × (services.get_email_html tenant
        email.email_id
      ≡ ok encoded)
    × (services.base64_decode encoded ≡ ok decoded)
    × (services.query_unescape decoded ≡ ok html)

module _ {E : Type 0} (services : Services E) where
  Returns-prepare :
      (tenant : Tenant) (uds : List Ud) (pos : ℕ) (emails : List CampaignEmail) (s : State E)
      → All (HasContent services tenant) emails
      → StartsInRange (length uds) pos (map get_ratio emails)
      → Returns (prepare services tenant uds pos emails) s
  unfolding prepare
  Returns-prepare tenant uds pos [] s h k = Returns-pure [] s
  Returns-prepare tenant uds pos (email ∷ emails) s ((encoded, decoded, html, got, dec, unesc), h)
        (near, k) =
      let (bucket, sliced) =
        first_slice uds pos (bucket_count (length uds) (get_ratio email)) near in
      let (ps, t, prepared) =
        Returns-prepare tenant uds (pos + bucket_count (length uds) (get_ratio email)) emails s h
          k in
      Returns-known _ _ s s bucket (or_panic-some _ bucket s sliced) (
        Returns-known _ _ s s encoded (or_fail-ok _ _ encoded s got) (
          Returns-known _ _ s s decoded (or_fail-ok _ _ decoded s dec) (
            Returns-known _ _ s s html (or_fail-ok _ _ html s unesc)
              (Returns-known _ _ s t ps prepared (Returns-pure _ t)))))

  Returns-send_batch :
      (tenant : Tenant) (sender : Sender) (p : Prepared) (count : ℕ) (to : List String)
      (from_email : String) (s : State E)
      → get_email sender tenant ≡ some from_email
      → Returns (send_batch services tenant sender p count to) s
  unfolding send_batch
  Returns-send_batch tenant sender p count to from_email s h =
      Returns-bind _ _ s (from_email, s, or_panic-some _ from_email s h)
        λ _ t₁ _. Returns-bind _ _ t₁ (Returns-current t₁) λ campaign t₂ _.
          Returns-bind _ _ t₂ (Returns-send services _ t₂) λ _ t₃ _.
            Returns-bind _ _ t₃ (Returns-tolerate _ _ t₃) λ _ t₄ _.
              Returns-bind _ _ t₄ (Returns-change services _ t₄) λ _ t₅ _.
                Returns-bind _ _ t₅ (Returns-save services t₅) λ _ t₆ _. Returns-tolerate _ _ t₆

  Returns-send_batches :
      (tenant : Tenant) (sender : Sender) (p : Prepared) (count : ℕ) (parts : List (List String))
      (from_email : String) (s : State E)
      → get_email sender tenant ≡ some from_email
      → Returns (send_batches services tenant sender p count parts) s
  unfolding send_batches
  Returns-send_batches tenant sender p count [] from_email s h = Returns-pure tt s
  Returns-send_batches tenant sender p count (to ∷ rest) from_email s h =
      Returns-bind _ _ s (Returns-send_batch tenant sender p _ to from_email s h)
        λ _ t _. Returns-send_batches tenant sender p (count + length to) rest from_email t h

  Returns-send_buckets :
      (tenant : Tenant) (sender : Sender) (ps : List Prepared) (from_email : String) (s : State E)
      → get_email sender tenant ≡ some from_email
      → Returns (send_buckets services tenant sender ps) s
  unfolding send_buckets
  Returns-send_buckets tenant sender [] from_email s h = Returns-pure tt s
  Returns-send_buckets tenant sender (p ∷ ps) from_email s h =
      let (parts, split, _, _) = batches_cover max_recipients_per_send p.bucket (omega arith) in
      Returns-bind _ _ s (parts, s, or_panic-some _ parts s split)
        λ found t₁ _.
          Returns-bind _ _ t₁ (Returns-send_batches tenant sender p 0 found from_email t₁ h)
            λ _ t₂ _. Returns-send_buckets tenant sender ps from_email t₂ h

  module _ (saves : (s : State E) → services.update_campaign s.events s.campaign ≡ none) where
    saved-none : (s s' : State E) (o : Option E) → save services s ≡ (returned o, s') → o ≡ none
    unfolding save
    saved-none s s' o h = cc (saves s)

    Returns-deliver :
        (tenant : Tenant) (sender : Sender) (uds : List Ud) (from_email : String) (s : State E)
        → get_email sender tenant ≡ some from_email
        → All (HasContent services tenant) s.campaign.campaign_emails
        → StartsInRange (length uds) 0 (map get_ratio s.campaign.campaign_emails)
        → Returns (deliver services tenant sender uds) s
    unfolding deliver
    Returns-deliver tenant sender uds from_email s from content starts =
        Returns-bind _ _ s (Returns-change services _ s) λ _ t₁ e₁.
          Returns-bind _ _ t₁ (Returns-save services t₁) λ o t₂ e₂.
            Returns-bind _ _ t₂ (Returns-check _ _ t₂ (saved-none t₁ t₂ o e₂)) λ _ t₃ e₃.
              Returns-bind _ _ t₃ (Returns-current t₃) λ campaign t₄ e₄.
                let emails : campaign.campaign_emails ≡ s.campaign.campaign_emails =
                  ap (λ (c : Campaign). c.campaign_emails)
                    (((Ensures-current t₃).at campaign t₄ e₄).0
                      ∙ ap (λ (u : State E). u.campaign) ((Ensures-check _ _ t₂).at _ t₃ e₃).1
                      ∙ ((Ensures-save services t₁).at o t₂ e₂).0
                      ∙ ((Ensures-change services _ s).at _ t₁ e₁).0)
                  ∙ (update-Updated _ _ s.campaign).kept_emails in
                Returns-bind _ _ t₄
                  (Returns-prepare tenant uds 0 campaign.campaign_emails t₄
                    (subst (All (HasContent services tenant)) (sym emails) content)
                    (subst (λ l. StartsInRange (length uds) 0 (map get_ratio l)) (sym emails)
                      starts))
                  λ ps t₅ _.
                    Returns-bind _ _ t₅ (Returns-send_buckets tenant sender ps from_email t₅ from)
                      λ _ t₆ _. Returns-bind _ _ t₆ (Returns-change services _ t₆) λ _ t₇ _.
                        Returns-bind _ _ t₇ (Returns-save services t₇)
                          λ o' t₈ e₈. Returns-check _ _ t₈ (saved-none t₇ t₈ o' e₈)

-- A campaign's goroutine returns with no error, even if the mail service answers every mail with an
-- error, if the tenant and the sender are found and the sender has an address, the segment's pages
-- end, the content of each email can be fetched and decoded, no email's bucket starts behind the
-- last recipient, the campaign can always be saved, and the fuel is the number of pages at least.
pub run_campaign-returns :
    {E : Type 0} (services : Services E) (fuel n : ℕ) (s : State E) (tenant : Tenant)
    (sender : Sender) (from_email : String) (uds : List Ud)
    → services.get_tenant (get_tenant_id s.campaign) ≡ ok tenant
    → services.get_sender (Tenant.get_id tenant) (get_sender_id s.campaign) ≡ ok sender
    → get_email sender tenant ≡ some from_email
    → Pages services tenant s.campaign.segment_id n "" uds
    → n ≤ fuel
    → All (HasContent services tenant) s.campaign.campaign_emails
    → StartsInRange (length uds) 0 (map get_ratio s.campaign.campaign_emails)
    → ((u : State E) → services.update_campaign u.events u.campaign ≡ none)
    → (s' : State E) × (run_campaign services fuel s ≡ (returned tt, s'))
unfolding run_campaign current
run_campaign-returns services fuel n s tenant sender from_email uds known sends from pages enough
      content starts saves =
    let (_, s', e) = Returns-known _ _ s s s.campaign refl (
      Returns-known _ _ s s tenant (or_fail-ok _ _ tenant s known) (
        Returns-known _ _ s s sender (or_fail-ok _ _ sender s sends) (
          Returns-known _ _ s s uds
            (download-returns services tenant s.campaign.segment_id pages fuel [] s enough)
            (Returns-deliver services saves tenant sender uds from_email s from content
              starts)))) in
    (s', e)
