-- ===== src/Examples/Handlers.antt =====
-- Creating a campaign whose ratios wrap around to 100.
use mirror_backend.Common.{ℕ, ◌-◌, ◌^◌, String, some, none, [], ◌∷◌, ok, ◌≡◌, ◌↔◌, refl}
use mirror_backend.Entity.Campaign.{Campaign}
use mirror_backend.Validator.{
  valid, validate_string, check_number, check_text, run_validators, rune_count, in_charset,
}
use mirror_backend.Validator.Form.{
  validate, validate_nil, validate_leaf, field_name, validator_of, validate_uint64,
}
use mirror_backend.Text.{split}
use mirror_backend.Handler.Campaign.{
  RequestEmail, CreateCampaignRequest, Services, add_ratios, to_campaign, check_emails,
  create_campaign, create_campaign_validator, request_value,
}
use mirror_backend.Handler.Campaign.Created.{Created}
use mirror_backend.Handler.Campaign.Accepted.{create_campaign-ok_iff}

abbrev accepting : Services String
accepting = record {
  get_sender = λ tenant_id id. none;
  get_email = λ tenant_id id. none;
  create = λ c. ok 12;
}

abbrev mail : ℕ → RequestEmail
mail ratio = record { email_id = some 3; subject = some "hello"; ratio = some ratio }

abbrev wrapping : CreateCampaignRequest
wrapping = record {
  user_id = some 5;
  tenant_id = some 1;
  name = some "spring";
  campaign_desc = some "news";
  sender_id = some 1;
  segment_id = some 2;
  emails = mail (2 ^ 64 - 1) ∷ mail 101 ∷ [];
  schedule = some 7;
}

abbrev stored_campaign : Campaign
stored_campaign = record {
  id = some 12;
  name = some "spring";
  campaign_desc = some "news";
  segment_id = some 2;
  segment_size = some 0;
  progress = some 0;
  sender_id = some 1;
  status = 1;
  campaign_emails =
      record {
        id = none;
        campaign_id = none;
        email_id = some 3;
        subject = some "hello";
        ratio = some (2 ^ 64 - 1);
      }
      ∷ record {
        id = none;
        campaign_id = none;
        email_id = some 3;
        subject = some "hello";
        ratio = some 101;
      }
      ∷ [];
  creator_id = some 5;
  tenant_id = some 1;
  schedule = some 7;
  create_time = some 9;
  update_time = some 9;
}

request-valid : validate (request_value wrapping) create_campaign_validator ≡ valid
unfolding validate validate_nil validate_leaf field_name validator_of validate_uint64
    validate_string check_number check_text run_validators rune_count in_charset split
request-valid = refl

answer : create_campaign accepting 9 wrapping ≡ ok stored_campaign
unfolding create_campaign add_ratios to_campaign check_emails
answer = rw (request-valid, create_campaign)

create_campaign-ok_iff_example :
    (create_campaign accepting 9 wrapping ≡ ok stored_campaign)
    ↔ Created accepting 9 wrapping stored_campaign
create_campaign-ok_iff_example = create_campaign-ok_iff accepting 9 wrapping stored_campaign

answer-Created : Created accepting 9 wrapping stored_campaign
answer-Created = (create_campaign-ok_iff accepting 9 wrapping stored_campaign).0 answer
