-- ===== src/Entity/Campaign/Update.antt =====
-- What `Update` writes to a campaign.
use mirror_backend.Common.{
  ℕ, Bool, true, false, Option, none, some, if◌then◌else◌, ◌≡◌, ◌≢◌, ◌⊎◌, ◌↔◌, arith, refl,
}
use mirror_backend.Entity.Campaign.{
  Campaign, CampaignChange, get_progress, get_segment_size, update,
}

-- a number is asked for, and it is another one than the campaign has
abbrev pub IsOther : Option ℕ → ℕ → Type 0
IsOther none old = ⊥
IsOther (some v) old = old ≢ v

-- how `Update` relates the campaign before and after
pub record Updated (now : ℕ) (n : CampaignChange) (e e' : Campaign) (changed : Bool) : Type 0 where
  pub progress : (v : ℕ) → n.progress ≡ some v → get_progress e' ≡ v
  pub segment_size : (v : ℕ) → n.segment_size ≡ some v → get_segment_size e' ≡ v
  pub status : (n.status ≡ 0) × (e'.status ≡ e.status) ⊎ ((n.status ≢ 0) × (e'.status ≡ n.status))
  pub kept_progress : n.progress ≡ none → e'.progress ≡ e.progress
  pub kept_segment_size : n.segment_size ≡ none → e'.segment_size ≡ e.segment_size
  pub kept_emails : e'.campaign_emails ≡ e.campaign_emails
  pub kept_id : e'.id ≡ e.id
  pub kept_name : e'.name ≡ e.name
  pub kept_campaign_desc : e'.campaign_desc ≡ e.campaign_desc
  pub kept_segment_id : e'.segment_id ≡ e.segment_id
  pub kept_sender_id : e'.sender_id ≡ e.sender_id
  pub kept_creator_id : e'.creator_id ≡ e.creator_id
  pub kept_tenant_id : e'.tenant_id ≡ e.tenant_id
  pub kept_schedule : e'.schedule ≡ e.schedule
  pub kept_create_time : e'.create_time ≡ e.create_time
  pub has_changed : (changed ≡ true) ↔ (
      IsOther n.progress (get_progress e)
      ⊎ IsOther n.segment_size (get_segment_size e)
      ⊎ ((n.status ≢ 0) × (e.status ≢ n.status)))
  pub time : e'.update_time ≡ (if changed then some now else e.update_time)
  pub unchanged : changed ≡ false → e' ≡ e

update-has_changed :
    (now : ℕ) (n : CampaignChange) (e : Campaign) (p s : Option ℕ)
    → n.progress ≡ p
    → n.segment_size ≡ s
    → ((update now n e).1 ≡ true) ↔ (
        IsOther p (get_progress e)
        ⊎ IsOther s (get_segment_size e)
        ⊎ ((n.status ≢ 0) × (e.status ≢ n.status)))
unfolding update
update-has_changed now n e none none h k = ground arith
update-has_changed now n e none (some s) h k = ground arith
update-has_changed now n e (some p) none h k = ground arith
update-has_changed now n e (some p) (some s) h k = ground arith

-- After `Update` the campaign has every value that was asked for, and what was not asked for and all
-- its other fields but the update time are as before. `Update` tells of a change exactly if a value
-- that was asked for is not the one that the campaign had. The update time is `now` where it tells
-- of a change; where it tells of none, the whole campaign is as before.
pub update-Updated :
    (now : ℕ) (n : CampaignChange) (e : Campaign)
    → Updated now n e (update now n e).0 (update now n e).1
unfolding update
update-Updated now n e = record {
  progress = λ v h. ground arith;
  segment_size = λ v h. ground arith;
  status = ground arith;
  kept_progress = λ h. ground arith;
  kept_segment_size = λ h. ground arith;
  kept_emails = ground arith;
  kept_id = ground arith;
  kept_name = ground arith;
  kept_campaign_desc = ground arith;
  kept_segment_id = ground arith;
  kept_sender_id = ground arith;
  kept_creator_id = ground arith;
  kept_tenant_id = ground arith;
  kept_schedule = ground arith;
  kept_create_time = ground arith;
  has_changed = update-has_changed now n e n.progress n.segment_size refl refl;
  time = ground arith;
  unchanged = λ h. ground arith;
}
