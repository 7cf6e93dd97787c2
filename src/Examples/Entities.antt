-- ===== src/Examples/Entities.antt =====
-- Document IDs and campaigns.
use mirror_backend.Common.{some, none, true, ok, err, ◌≡◌, refl, arith, []}
use mirror_backend.Text.Splitting.{has_char}
use mirror_backend.Entity.Ud.{to_doc_id, to_ud, invalid_format}
use mirror_backend.Entity.Ud.RoundTrip.{to_ud-to_doc_id, to_ud-to_doc_id_colon}
use mirror_backend.Entity.Campaign.{Campaign, CampaignChange, update}
use mirror_backend.Entity.Campaign.Update.{Updated, update-Updated}

to_ud-to_doc_id_example :
    to_ud (to_doc_id (some (record { id = some "ann"; id_type = 1 })))
    ≡ ok (record { id = some "ann"; id_type = 1 })
to_ud-to_doc_id_example =
    to_ud-to_doc_id "ann" 1 (λ p. omega arith, (λ p. omega arith, (λ p. omega arith, tt)))
      (λ p. omega arith) (omega arith)

colon : has_char b':' "a:b" ≡ true
unfolding has_char
colon = refl

to_ud-to_doc_id_colon_example :
    to_ud (to_doc_id (some (record { id = some "a:b"; id_type = 1 }))) ≡ err invalid_format
to_ud-to_doc_id_colon_example = to_ud-to_doc_id_colon "a:b" 1 colon

abbrev fresh : Campaign
fresh = record {
  id = some 1;
  name = some "spring";
  campaign_desc = some "news";
  segment_id = none;
  segment_size = none;
  progress = some 0;
  sender_id = some 1;
  status = 1;
  campaign_emails = [];
  creator_id = some 1;
  tenant_id = some 1;
  schedule = some 0;
  create_time = some 10;
  update_time = some 10;
}

abbrev finished : CampaignChange
finished = record { progress = some 100; segment_size = some 3; status = 0 }

update-Updated_example :
    Updated 20 finished fresh (update 20 finished fresh).0 (update 20 finished fresh).1
update-Updated_example = update-Updated 20 finished fresh
