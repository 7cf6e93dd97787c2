-- ===== src/Handler/Campaign.antt =====
-- `CreateCampaign` of handler/campaign.go. The repositories, and the handler of emails, are
-- parameters.
pub mod Created
pub mod Accepted
use mirror_backend.Common.{
  ℕ, ◌+◌, ◌%◌, ◌^◌, String, Bool, true, false, Option, none, some, List, [], ◌∷◌, map, ◌==◌,
  if◌then◌else◌, get_or, first_error, Result, ok, err,
}
use mirror_backend.Entity.Campaign.{Campaign, CampaignEmail, get_ratio, campaign_status_pending}
use mirror_backend.Handler.Values.{uint64_field, string_field, identified}
use mirror_backend.Validator.{
  Any, nil_pointer, pointer, nil_slice, slice, Items, no_item, item, struct, no_field, field, str,
  uint64, Verdict, valid, StringRule, Validator, slice_validator, string_validator,
  uint64_validator, no_entry, entry,
}
use mirror_backend.Validator.Form.{validate}
use mirror_backend.Validator.Requests.{
  must_form, number_rule, string_rule, context_info_validator, resource_name_validator,
  resource_desc_validator,
}

-- CampaignEmail of the request
pub record RequestEmail : Type 0 where
  pub email_id : Option ℕ
  pub subject : Option String
  pub ratio : Option ℕ

pub record CreateCampaignRequest : Type 0 where
  pub user_id : Option ℕ
  pub tenant_id : Option ℕ
  pub name : Option String
  pub campaign_desc : Option String
  pub sender_id : Option ℕ
  pub segment_id : Option ℕ
  pub emails : List RequestEmail
  pub schedule : Option ℕ

abbrev pub create_campaign_validator : Validator
create_campaign_validator = must_form (
    entry "ContextInfo" (context_info_validator false false) (
      entry "name" (resource_name_validator false) (
        entry "campaign_desc" (resource_desc_validator false) (
          entry "sender_id" (uint64_validator (number_rule false)) (
            entry "segment_id" (uint64_validator (number_rule false)) (
              entry "emails"
                (slice_validator false 1 4 (
                  must_form (
                    entry "email_id" (uint64_validator (number_rule false)) (
                      entry "subject"
                        (string_validator
                          (record (string_rule false) { min_len = 1; max_len = 100 }))
                        (entry "ratio" (uint64_validator (number_rule true)) no_entry)))))
                (entry "schedule" (uint64_validator (number_rule true)) no_entry)))))))

abbrev email_value : RequestEmail → Any
email_value e = pointer (
    struct (
      field "EmailID" "email_id,omitempty" (uint64_field e.email_id) (
        field "Subject" "subject,omitempty" (string_field e.subject)
          (field "Ratio" "ratio,omitempty" (uint64_field e.ratio) no_field))))

abbrev email_values : List RequestEmail → Items
email_values [] = no_item
email_values (e ∷ es) = item (email_value e) (email_values es)

-- the request as the validator sees it
abbrev pub request_value : CreateCampaignRequest → Any
request_value req = pointer (
    struct (
      field "ContextInfo" ""
        (struct (
          field "User" "" (identified req.user_id)
            (field "Tenant" "" (identified req.tenant_id) no_field)))
        (field "Name" "name,omitempty" (string_field req.name) (
          field "CampaignDesc" "campaign_desc,omitempty" (string_field req.campaign_desc) (
            field "SenderID" "sender_id,omitempty" (uint64_field req.sender_id) (
              field "SegmentID" "segment_id,omitempty" (uint64_field req.segment_id) (
                field "Emails" "emails,omitempty" (slice (email_values req.emails)) (
                  field "Schedule" "schedule,omitempty" (uint64_field req.schedule) no_field))))))))

-- the sum as a uint64
unfoldable pub add_ratios : ℕ → List RequestEmail → ℕ
add_ratios ratio [] = ratio
add_ratios ratio (e ∷ es) = add_ratios ((ratio + get_or 0 e.ratio) % 2 ^ 64) es

abbrev to_campaign_email : RequestEmail → CampaignEmail
to_campaign_email e = record {
  id = none;
  campaign_id = none;
  email_id = e.email_id;
  subject = e.subject;
  ratio = e.ratio;
}

unfoldable pub to_campaign : ℕ → CreateCampaignRequest → Campaign
to_campaign now req = record {
  id = none;
  name = req.name;
  campaign_desc = req.campaign_desc;
  segment_id = req.segment_id;
  segment_size = some 0;
  progress = some 0;
  sender_id = req.sender_id;
  status = campaign_status_pending;
  campaign_emails = map to_campaign_email req.emails;
  creator_id = some (get_or 0 req.user_id);
  tenant_id = some (get_or 0 req.tenant_id);
  schedule = some (get_or 0 req.schedule);
  create_time = some now;
  update_time = some now;
}

pub data CreateError (E : Type 0) : Type 0 where
  invalid_request : CreateError E
  wrong_ratios : CreateError E
  failed : E → CreateError E

-- what the handler calls; `get_sender` takes the tenant's ID
pub record Services (E : Type 0) : Type 0 where
  pub get_sender : ℕ → ℕ → Option E
  pub get_email : ℕ → Option ℕ → Option E
  pub create : Campaign → Result E ℕ

module _ {E : Type 0} (services : Services E) where
  open services use {get_sender, get_email, create}

  -- the loop over the campaign's emails
  unfoldable pub check_emails : ℕ → List CampaignEmail → Option E
  check_emails tenant_id [] = none
  check_emails tenant_id (e ∷ es) =
      first_error (get_email tenant_id e.email_id) (check_emails tenant_id es)

  abbrev pub unless_failed :
      {A : Type 0} → Option E → Result (CreateError E) A → Result (CreateError E) A
  unless_failed none r = r
  unless_failed (some e) r = err (failed e)

  abbrev pub created : Campaign → Result E ℕ → Result (CreateError E) Campaign
  created campaign (err e) = err (failed e)
  created campaign (ok id) = ok (record campaign { id = some id })

  abbrev pub after_validation :
      {A : Type 0} → Verdict → Result (CreateError E) A → Result (CreateError E) A
  after_validation valid r = r
  after_validation _ r = err invalid_request

  abbrev pub check_ratios : {A : Type 0} → ℕ → Result (CreateError E) A → Result (CreateError E) A
  check_ratios ratio r = if ratio == 100 then r else err wrong_ratios

  unfoldable pub create_campaign : ℕ → CreateCampaignRequest → Result (CreateError E) Campaign
  unfolding add_ratios to_campaign check_emails
  create_campaign now req =
      let campaign = to_campaign now req in
      after_validation (validate (request_value req) create_campaign_validator) (
        check_ratios (add_ratios 0 req.emails) (
          unless_failed (get_sender (get_or 0 req.tenant_id) (get_or 0 req.sender_id)) (
            unless_failed (check_emails (get_or 0 req.tenant_id) campaign.campaign_emails)
              (created campaign (create campaign)))))
