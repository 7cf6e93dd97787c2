-- ===== src/Handler/Campaign/Created.antt =====
-- The campaign that `CreateCampaign` returns, and the checks that it passes.
use mathlib.Core.Path.{subst}
use mirror_backend.Common.{
  ℕ, ◌+◌, ◌%◌, ◌^◌, ◌<◌, Option, none, some, List, [], ◌∷◌, map, All, Each, each_nil, each_cons,
  ◌==◌, ==_iff, if◌then◌else◌, get_or, first_error-eq-none, Result, ok, err, ◌≡◌, refl, ◌∙◌, sym,
  ap, arith, Bool-cases, inl, inr,
}
use mirror_backend.Entity.Campaign.{Campaign, CampaignEmail, get_ratio}
use mirror_backend.Job.Campaign.Buckets.Cover.{sum}
use mirror_backend.Validator.{Verdict, valid, invalid, unset_string, unset_number, panicked}
use mirror_backend.Validator.Form.{validate}
use mirror_backend.Handler.Campaign.{
  RequestEmail, CreateCampaignRequest, create_campaign_validator, request_value, add_ratios,
  to_campaign_email, to_campaign, CreateError, Services, check_emails, unless_failed, created,
  after_validation, check_ratios, create_campaign,
}

pub add_ratios-sum :
    (ratio : ℕ) (es : List RequestEmail)
    → ratio < 2 ^ 64
    → add_ratios ratio es ≡ (ratio + sum (map get_ratio (map to_campaign_email es))) % 2 ^ 64
unfolding add_ratios
add_ratios-sum ratio [] h = omega arith
add_ratios-sum ratio (e ∷ es) h =
    omega (arith, add_ratios-sum ((ratio + get_or 0 e.ratio) % 2 ^ 64) es (omega arith))

-- The campaign's email has the values of the request's.
pub record IsEmailOf (r : RequestEmail) (e : CampaignEmail) : Type 0 where
  pub no_id : e.id ≡ none
  pub no_campaign_id : e.campaign_id ≡ none
  pub same_email_id : e.email_id ≡ r.email_id
  pub same_subject : e.subject ≡ r.subject
  pub same_ratio : e.ratio ≡ r.ratio

to_campaign_email-Each : (rs : List RequestEmail) → Each IsEmailOf rs (map to_campaign_email rs)
to_campaign_email-Each [] = each_nil
to_campaign_email-Each (r ∷ rs) =
    each_cons
      (record {
        no_id = refl;
        no_campaign_id = refl;
        same_email_id = refl;
        same_subject = refl;
        same_ratio = refl;
      })
      (to_campaign_email-Each rs)

module _ {E : Type 0} (services : Services E) where
  open services use {get_sender, get_email, create}

  -- The request passes every check, and the campaign has the values of the request and what a new
  -- campaign starts with; the repository has stored it, with an ID for it.
  pub record Created (now : ℕ) (req : CreateCampaignRequest) (c : Campaign) : Type 0 where
    pub id : ℕ
    pub is_valid : validate (request_value req) create_campaign_validator ≡ valid
    pub ratios : sum (map get_ratio c.campaign_emails) % 2 ^ 64 ≡ 100
    pub has_sender : get_sender (get_or 0 req.tenant_id) (get_or 0 req.sender_id) ≡ none
    pub has_emails :
        All
          (λ (e : CampaignEmail). get_email (get_or 0 req.tenant_id) e.email_id ≡ none)
          c.campaign_emails
    pub stored : create (record c { id = none }) ≡ ok id
    pub has_id : c.id ≡ some id
    pub same_name : c.name ≡ req.name
    pub same_campaign_desc : c.campaign_desc ≡ req.campaign_desc
    pub same_segment_id : c.segment_id ≡ req.segment_id
    pub same_sender_id : c.sender_id ≡ req.sender_id
    pub same_emails : Each IsEmailOf req.emails c.campaign_emails
    pub has_creator : c.creator_id ≡ some (get_or 0 req.user_id)
    pub has_tenant : c.tenant_id ≡ some (get_or 0 req.tenant_id)
    pub has_schedule : c.schedule ≡ some (get_or 0 req.schedule)
    pub pending : c.status ≡ 1
    pub no_progress : c.progress ≡ some 0
    pub no_segment_size : c.segment_size ≡ some 0
    pub create_time : c.create_time ≡ some now
    pub update_time : c.update_time ≡ some now

  after_validation-ok :
      (v : Verdict) (r : Result (CreateError E) Campaign) (c : Campaign)
      → after_validation services v r ≡ ok c
      → (v ≡ valid) × (r ≡ ok c)
  after_validation-ok valid r c h = (refl, h)
  after_validation-ok (invalid e) r c h = cc
  after_validation-ok unset_string r c h = cc
  after_validation-ok unset_number r c h = cc
  after_validation-ok panicked r c h = cc

  unless_failed-ok :
      (o : Option E) (r : Result (CreateError E) Campaign) (c : Campaign)
      → unless_failed services o r ≡ ok c
      → (o ≡ none) × (r ≡ ok c)
  unless_failed-ok none r c h = (refl, h)
  unless_failed-ok (some e) r c h = cc

  check_ratios-ok :
      (ratio : ℕ) (r : Result (CreateError E) Campaign) (c : Campaign)
      → check_ratios services ratio r ≡ ok c
      → (ratio ≡ 100) × (r ≡ ok c)
  check_ratios-ok ratio r c h = elim (Bool-cases (ratio == 100)) [
    | inl same ↦ (
      (==_iff ratio 100).0 same,
      ap (λ b. if b then r else err CreateError.wrong_ratios) (sym same) ∙ h,
    )
    | inr differ ↦ cc (ap (λ b. if b then r else err CreateError.wrong_ratios) differ)
  ]

  created-ok :
      (campaign c : Campaign) (r : Result E ℕ)
      → created services campaign r ≡ ok c
      → (id : ℕ) × (r ≡ ok id) × (c ≡ record campaign { id = some id })
  created-ok campaign c (ok id) h = (id, refl, cc)
  created-ok campaign c (err e) h = cc

  check_emails-none :
      (tenant_id : ℕ) (es : List CampaignEmail)
      → check_emails services tenant_id es ≡ none
      → All (λ (e : CampaignEmail). get_email tenant_id e.email_id ≡ none) es
  unfolding check_emails
  check_emails-none tenant_id [] h = tt
  check_emails-none tenant_id (e ∷ es) h =
      let (found, later) =
        first_error-eq-none (get_email tenant_id e.email_id) (check_emails services tenant_id es)
          h in
      (found, check_emails-none tenant_id es later)

  all_stored :
      (now : ℕ) (req : CreateCampaignRequest) (c : Campaign)
      → validate (request_value req) create_campaign_validator ≡ valid
      → add_ratios 0 req.emails ≡ 100
      → get_sender (get_or 0 req.tenant_id) (get_or 0 req.sender_id) ≡ none
      → check_emails services (get_or 0 req.tenant_id) (map to_campaign_email req.emails) ≡ none
      → created services (to_campaign now req) (create (to_campaign now req)) ≡ ok c
      → Created now req c
  unfolding to_campaign
  all_stored now req c is_valid hundred has_sender has_emails h =
      let (id, stored, same) =
        created-ok (to_campaign now req) c (create (to_campaign now req)) h in
      subst (Created now req) (sym same) (record {
        id = id;
        is_valid = is_valid;
        ratios = omega (arith, add_ratios-sum 0 req.emails (omega arith), hundred);
        has_sender = has_sender;
        has_emails =
            check_emails-none (get_or 0 req.tenant_id) (map to_campaign_email req.emails)
              has_emails;
        stored = stored;
        has_id = refl;
        same_name = refl;
        same_campaign_desc = refl;
        same_segment_id = refl;
        same_sender_id = refl;
        same_emails = to_campaign_email-Each req.emails;
        has_creator = refl;
        has_tenant = refl;
        has_schedule = refl;
        pending = refl;
        no_progress = refl;
        no_segment_size = refl;
        create_time = refl;
        update_time = refl;
      })

  pub create_campaign-Created :
      (now : ℕ) (req : CreateCampaignRequest) (c : Campaign)
      → create_campaign services now req ≡ ok c
      → Created now req c
  unfolding create_campaign to_campaign
  create_campaign-Created now req c h =
      let (is_valid, h₁) =
        after_validation-ok (validate (request_value req) create_campaign_validator) _ c h in
      let (hundred, h₂) = check_ratios-ok (add_ratios 0 req.emails) _ c h₁ in
      let (has_sender, h₃) =
        unless_failed-ok (get_sender (get_or 0 req.tenant_id) (get_or 0 req.sender_id)) _ c h₂ in
      let (has_emails, h₄) =
        unless_failed-ok
          (check_emails services (get_or 0 req.tenant_id) (to_campaign now req).campaign_emails) _ c
          h₃ in
      all_stored now req c is_valid hundred has_sender has_emails h₄
