-- ===== src/Job/Campaign/Run/Preparing.antt =====
-- The emails that a campaign's goroutine prepares, and their recipients.
use mathlib.Core.List.{flatten, map-append}
use mirror_backend.Common.{
  ℕ, ◌+◌, String, some, List, [], ◌∷◌, ◌++◌, map, ◌≡◌, ◌∙◌, refl, sym, ap, length,
}
use mirror_backend.Slices.{slice_range}
use mirror_backend.Entity.Ud.{Ud}
use mirror_backend.Entity.Tenant.{Tenant}
use mirror_backend.Entity.Campaign.{CampaignEmail, get_ratio}
use mirror_backend.Job.Campaign.Buckets.{bucket_count, min, email_buckets}
use mirror_backend.Job.Campaign.Buckets.Cover.{sum, email_buckets-cover}
use mirror_backend.Job.Campaign.Task.{State, Services, Prepared}
use mirror_backend.Job.Campaign.Run.{ud_id, prepare}
use mirror_backend.Job.Campaign.Run.Mails.{prepared_recipients}
use mirror_backend.Job.Campaign.Run.Ensures.{
  Ensures, Ensures-bind, Ensures-pure, Ensures-or_panic, Ensures-or_fail,
}
use mirror_backend.Job.Campaign.Run.Trace.{
  Silent, Silent-bind, Silent-pure, Silent-or_fail, Silent-or_panic,
}

-- the emails that were prepared hold the buckets
abbrev pub HoldBuckets : List Ud → ℕ → List CampaignEmail → List Prepared → Type 0
HoldBuckets uds pos emails ps =
    (bs : List (List Ud)) × (email_buckets uds pos (map get_ratio emails) ≡ some bs)
    × (prepared_recipients ps ≡ map ud_id (flatten bs))

HoldBuckets-cons :
    (uds : List Ud) (pos : ℕ) (email : CampaignEmail) (emails : List CampaignEmail)
    (bucket : List Ud) (html : String) (ps : List Prepared)
    → slice_range uds pos (min (length uds) (pos + bucket_count (length uds) (get_ratio email)))
      ≡ some bucket
    → HoldBuckets uds (pos + bucket_count (length uds) (get_ratio email)) emails ps
    → HoldBuckets uds pos
        (email ∷ emails)
        (record { email = email; bucket = map ud_id bucket; html = html } ∷ ps)
unfolding email_buckets flatten
HoldBuckets-cons uds pos email emails bucket html ps sliced (bs, built, flat) = (
  bucket ∷ bs,
  rw (sliced, built),
  ap (λ l. map ud_id bucket ++ l) flat ∙ sym (map-append ud_id bucket (flatten bs)),
)

pub prepared_recipients-cover :
    (uds : List Ud) (emails : List CampaignEmail) (ps : List Prepared)
    → sum (map get_ratio emails) ≡ 100
    → HoldBuckets uds 0 emails ps
    → prepared_recipients ps ≡ map ud_id uds
prepared_recipients-cover uds emails ps total (bs, built, same) =
    same ∙ ap (map ud_id) (email_buckets-cover uds (map get_ratio emails) bs total built)

module _ {E : Type 0} (services : Services E) where
  pub Silent-prepare :
      (tenant : Tenant) (uds : List Ud) (pos : ℕ) (emails : List CampaignEmail)
      → Silent (prepare services tenant uds pos emails)
  unfolding prepare
  Silent-prepare tenant uds pos [] = Silent-pure _
  Silent-prepare tenant uds pos (email ∷ emails) = Silent-bind _ _ (Silent-or_panic _) λ bucket.
      Silent-bind _ _ (Silent-or_fail _ _) λ encoded.
        Silent-bind _ _ (Silent-or_fail _ _) λ decoded. Silent-bind _ _ (Silent-or_fail _ _) λ html.
          Silent-bind _ _
            (Silent-prepare tenant uds (pos + bucket_count (length uds) (get_ratio email)) emails)
            λ rest. Silent-pure _

  pub prepare-HoldBuckets :
      (tenant : Tenant) (uds : List Ud) (pos : ℕ) (emails : List CampaignEmail) (s : State E)
      → Ensures (prepare services tenant uds pos emails) s (λ ps s'. HoldBuckets uds pos emails ps)
  unfolding prepare
  prepare-HoldBuckets tenant uds pos [] s =
      Ensures-pure [] s _ ([], unfold email_buckets in refl, unfold flatten in refl)
  prepare-HoldBuckets tenant uds pos (email ∷ emails) s =
      let next = pos + bucket_count (length uds) (get_ratio email) in
      Ensures-bind _ _ s _ _ (Ensures-or_panic _ s) λ bucket t₁ (sliced, _).
        Ensures-bind _ _ t₁ _ _ (Ensures-or_fail _ _ t₁) λ encoded t₂ _.
          Ensures-bind _ _ t₂ _ _ (Ensures-or_fail _ _ t₂) λ decoded t₃ _.
            Ensures-bind _ _ t₃ _ _ (Ensures-or_fail _ _ t₃) λ html t₄ _.
              Ensures-bind _ _ t₄ _ _
                (prepare-HoldBuckets tenant uds (pos + bucket_count (length uds) (get_ratio email))
                  emails t₄)
                λ ps t₅ held.
                  Ensures-pure _ t₅ _
                    (HoldBuckets-cons uds pos email emails bucket html ps sliced held)
