-- ===== src/Job/Campaign/Run/Download.antt =====
-- The pages of recipients that a campaign's goroutine downloads.
use mirror_backend.Common.{
  ℕ, zero, suc, ◌≤◌, String, Option, List, ◌++◌, append_assoc, ◌≡◌, ◌≢◌, ◌∙◌, refl, ap, arith, ok,
  str_eq, eq_iff, str_eq_of_ne, Bool-cases, inl, inr,
}
use mirror_backend.Entity.Ud.{Ud}
use mirror_backend.Entity.Tenant.{Tenant}
use mirror_backend.Job.Campaign.Task.{State, returned, Services, ◌>>=◌, pure, or_fail, out_of_fuel}
use mirror_backend.Job.Campaign.Run.{download}
use mirror_backend.Job.Campaign.Run.Ensures.{
  Ensures, Ensures-bind, Ensures-weaken, Ensures-pure, Ensures-or_fail,
}

module _ {E : Type 0} (services : Services E) where
  open services use {download_uds}

  -- the pages that the segment's search gives from a cursor on, in order; the number counts them
  pub data Pages (tenant : Tenant) (segment_id : Option ℕ) : ℕ → String → List Ud → Type 0 where
    last_page :
        {cursor : String} (page : List Ud)
        → download_uds tenant segment_id cursor ≡ ok (page, "")
        → Pages tenant segment_id 1 cursor page
    next_page :
        {n : ℕ} {cursor next : String} {rest : List Ud} (page : List Ud)
        → download_uds tenant segment_id cursor ≡ ok (page, next)
        → next ≢ ""
        → Pages tenant segment_id n next rest
        → Pages tenant segment_id (suc n) cursor (page ++ rest)

  abbrev pub Downloaded :
      Tenant → Option ℕ → List Ud → String → State E → List Ud → State E → Type 0
  Downloaded tenant segment_id acc cursor s uds s' =
      (n : ℕ) × (rest : List Ud) × Pages tenant segment_id n cursor rest
      × (uds ≡ acc ++ rest)
      × (s' ≡ s)

  -- Where the loop ends it has all pages, and has changed nothing.
  pub download-Downloaded :
      (fuel : ℕ) (tenant : Tenant) (segment_id : Option ℕ) (acc : List Ud) (cursor : String)
      (s : State E)
      → Ensures
          (download services fuel tenant segment_id acc cursor)
          s
          (Downloaded tenant segment_id acc cursor s)
  unfolding download
  download-Downloaded zero tenant segment_id acc cursor s = record {
    at = λ a s' h. (unfold out_of_fuel in cc);
  }
  download-Downloaded (suc fuel) tenant segment_id acc cursor s =
      Ensures-bind _ _ s _ _ (Ensures-or_fail _ _ s) λ answer t (page, same).
        elim (Bool-cases (str_eq answer.1 "")) [
          | inl done ↦
              let e : answer.1 ≡ "" = (eq_iff answer.1 "").0 done in
              rw done (
                Ensures-pure _ t _ (
                  1,
                  answer.0,
                  last_page answer.0 (page ∙ ap (λ c. ok (answer.0, c)) e),
                  refl,
                  same,
                ))
          | inr more ↦
              let e : answer.1 ≢ "" = λ p. cc (more, (eq_iff answer.1 "").1 p) in
              rw more (
                Ensures-weaken _ t _ _
                  (download-Downloaded fuel tenant segment_id (acc ++ answer.0) answer.1 t)
                  λ uds s' (n, rest, pages, all, kept). (
                    suc n,
                    answer.0 ++ rest,
                    next_page answer.0 page e pages,
                    all ∙ append_assoc acc answer.0 rest,
                    kept ∙ same,
                  ))
        ]

  -- The loop ends, if the pages end and the fuel is their number at least.
  pub download-returns :
      (tenant : Tenant) (segment_id : Option ℕ) {n : ℕ} {cursor : String} {rest : List Ud}
      → Pages tenant segment_id n cursor rest
      → (fuel : ℕ) (acc : List Ud) (s : State E) → n ≤ fuel
      → download services fuel tenant segment_id acc cursor s ≡ (returned (acc ++ rest), s)
  unfolding download ◌>>=◌ or_fail pure
  download-returns tenant segment_id (last_page page answer) zero acc s h = absurd (omega arith)
  download-returns tenant segment_id (last_page page answer) (suc fuel) acc s h = rw answer
  download-returns tenant segment_id (next_page page answer ne pages) zero acc s h =
      absurd (omega arith)
  download-returns tenant segment_id (next_page {next} {rest} page answer ne pages) (suc fuel) acc s
        h =
      rw (answer, str_eq_of_ne next "" ne)
        (download-returns tenant segment_id pages fuel (acc ++ page) s (omega arith)
          ∙ ap (λ l. (returned l, s)) (append_assoc acc page rest))
