-- ===== src/Job/Campaign/Run/Mails.antt =====
-- The mails that the loops over buckets and batches send.
use mathlib.Core.List.{flatten}
use mirror_backend.Common.{
  ℕ, ◌+◌, String, List, [], ◌∷◌, ◌++◌, ◌≡◌, ◌∙◌, sym, ap, arith, length, eq_of_some,
}
use mirror_backend.Entity.Tenant.{Tenant, Sender}
use mirror_backend.Job.Campaign.Batches.{batches, max_recipients_per_send}
use mirror_backend.Job.Campaign.Batches.Cover.{batches_cover}
use mirror_backend.Job.Campaign.Task.{Services, Prepared}
use mirror_backend.Job.Campaign.Run.{send_batch, send_batches, send_buckets}
use mirror_backend.Job.Campaign.Run.Ensures.{Ensures-or_panic}
use mirror_backend.Job.Campaign.Run.Trace.{
  Sends, bind-returned, Silent-bind, Silent-Sends, Sends-Silent, Sends-Sends, Sends-pure,
  Silent-or_panic, Silent-current, Silent-tolerate, Silent-change, Silent-save, Sends-send,
}

-- the recipients of some prepared emails, in order
abbrev pub prepared_recipients : List Prepared → List String
prepared_recipients [] = []
prepared_recipients (p ∷ ps) = p.bucket ++ prepared_recipients ps

module _ {E : Type 0} (services : Services E) where
  Sends-send_batch :
      (tenant : Tenant) (sender : Sender) (p : Prepared) (count : ℕ) (to : List String)
      → Sends (send_batch services tenant sender p count to) to
  unfolding send_batch
  Sends-send_batch tenant sender p count to = Silent-Sends _ _ to (Silent-or_panic _) λ from_email.
      Silent-Sends _ _ to Silent-current λ campaign.
        Sends-Silent _ _ to (Sends-send services _) λ failed_send.
          Silent-bind _ _ (Silent-tolerate _ _) λ _.
            Silent-bind _ _ (Silent-change services _)
              λ _. Silent-bind _ _ (Silent-save services) λ failed_save. Silent-tolerate _ _

  Sends-send_batches :
      (tenant : Tenant) (sender : Sender) (p : Prepared) (count : ℕ) (parts : List (List String))
      → Sends (send_batches services tenant sender p count parts) (flatten parts)
  unfolding send_batches flatten
  Sends-send_batches tenant sender p count [] = Sends-pure _
  Sends-send_batches tenant sender p count (to ∷ rest) =
      Sends-Sends _ _ to (flatten rest) (Sends-send_batch tenant sender p _ to)
        λ _. Sends-send_batches tenant sender p (count + length to) rest

  pub Sends-send_buckets :
      (tenant : Tenant) (sender : Sender) (ps : List Prepared)
      → Sends (send_buckets services tenant sender ps) (prepared_recipients ps)
  unfolding send_buckets
  Sends-send_buckets tenant sender [] = Sends-pure _
  Sends-send_buckets tenant sender (p ∷ ps) =
      let (parts, split, flat, _) = batches_cover max_recipients_per_send p.bucket (omega arith) in
      let later = Sends-send_buckets tenant sender ps in
      record {
        at = λ s s' a h.
            let (parts', t, first, rest) = bind-returned _ _ s s' a h in
            let same : parts ≡ parts' = eq_of_some (
              sym split
              ∙ ((Ensures-or_panic (batches max_recipients_per_send p.bucket) s).at parts' t
                  first).0) in
            let before =
              (Silent-or_panic (batches max_recipients_per_send p.bucket)).at s t parts' first in
            let sends =
              Sends-Sends _ _ (flatten parts') (prepared_recipients ps)
                (Sends-send_batches tenant sender p 0 parts') (λ _. later) in
            let whole : flatten parts' ≡ p.bucket = ap flatten (sym same) ∙ flat in
            sends.at t s' a rest ∙ rw (before, whole);
      }
