-- ===== src/Job/Campaign/Run/Returning.antt =====
-- Actions of a campaign's goroutine that return.
use mirror_backend.Common.{Option, none, some, ◌≡◌, ◌∙◌, refl, ap, Result, ok}
use mirror_backend.Entity.Campaign.{CampaignChange}
use mirror_backend.Job.Campaign.Task.{
  SendSmtpEmail, JobError, State, returned, Services, Task, continue, ◌>>=◌, pure, current, emit,
  report, or_fail, or_panic, check, tolerate,
}
use mirror_backend.Job.Campaign.Run.{change, save, send}

abbrev pub Returns : {E A : Type 0} → Task E A → State E → Type 0
Returns {E} {A} m s = (a : A) × (s' : State E) × (m s ≡ (returned a, s'))

module _ {E A B : Type 0} where
  pub Returns-bind :
      (m : Task E A) (k : A → Task E B) (s : State E)
      → Returns m s
      → ((a : A) (s' : State E) → m s ≡ (returned a, s') → Returns (k a) s')
      → Returns (m >>= k) s
  unfolding ◌>>=◌
  Returns-bind m k s (a, s₁, e) f =
      let (b, s₂, e₂) = f a s₁ e in (b, s₂, ap (λ r. continue r.0 k r.1) e ∙ e₂)

  pub Returns-known :
      (m : Task E A) (k : A → Task E B) (s s' : State E) (a : A)
      → m s ≡ (returned a, s')
      → Returns (k a) s'
      → Returns (m >>= k) s
  unfolding ◌>>=◌
  Returns-known m k s s' a e (b, s₂, e₂) = (b, s₂, ap (λ r. continue r.0 k r.1) e ∙ e₂)

module _ {E A : Type 0} where
  pub Returns-pure : (a : A) (s : State E) → Returns (pure a) s
  unfolding pure
  Returns-pure a s = (a, s, refl)

  pub or_fail-ok :
      (why : E → JobError E) (r : Result E A) (a : A) (s : State E)
      → r ≡ ok a
      → or_fail why r s ≡ (returned a, s)
  unfolding or_fail pure
  or_fail-ok why r a s h = rw (h, or_fail)

  pub or_panic-some :
      (o : Option A) (a : A) (s : State E) → o ≡ some a → or_panic o s ≡ (returned a, s)
  unfolding or_panic
  or_panic-some o a s h = rw (h, or_panic)

module _ {E : Type 0} where
  pub Returns-tolerate :
      (why : E → JobError E) (o : Option E) (s : State E) → Returns (tolerate why o) s
  unfolding tolerate report emit pure
  Returns-tolerate why none s = (_, _, refl)
  Returns-tolerate why (some e) s = (_, _, refl)

  pub Returns-check :
      (why : E → JobError E) (o : Option E) (s : State E) → o ≡ none → Returns (check why o) s
  unfolding check pure
  Returns-check why o s h = (tt, s, rw (h, check))

  pub Returns-current : (s : State E) → Returns current s
  unfolding current
  Returns-current s = (_, _, refl)

module _ {E : Type 0} (services : Services E) where
  pub Returns-change : (n : CampaignChange) (s : State E) → Returns (change services n) s
  unfolding change
  Returns-change n s = (_, _, refl)

  pub Returns-save : (s : State E) → Returns (save services) s
  unfolding save
  Returns-save s = (_, _, refl)

  pub Returns-send : (mail : SendSmtpEmail) (s : State E) → Returns (send services mail) s
  unfolding send
  Returns-send mail s = (_, _, refl)
