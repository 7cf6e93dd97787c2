-- ===== src/Job/Campaign/Run/Ensures.antt =====
-- Postconditions of the actions of a campaign's goroutine: what holds where an action returns.
use mirror_backend.Common.{
  String, Option, none, some, List, [], ◌∷◌, ◌++◌, ◌≡◌, refl, Result, ok, err,
}
use mirror_backend.Entity.Campaign.{CampaignChange, update}
use mirror_backend.Job.Campaign.Task.{
  JobError, State, saved, returned, Services, Task, ◌>>=◌, pure, current, or_fail, or_panic, check,
}
use mirror_backend.Job.Campaign.Run.{change, save}
use mirror_backend.Job.Campaign.Run.Trace.{recipients, Silent, Sends, bind-returned}

pub record Ensures {E A : Type 0} (m : Task E A) (s : State E) (Q : A → State E → Type 0)
    : Type 0 where
  pub at : (a : A) (s' : State E) → m s ≡ (returned a, s') → Q a s'

module _ {E A B : Type 0} where
  pub Ensures-bind :
      (m : Task E A) (k : A → Task E B) (s : State E) (R : A → State E → Type 0)
      (Q : B → State E → Type 0)
      → Ensures m s R
      → ((a : A) (s' : State E) → R a s' → Ensures (k a) s' Q)
      → Ensures (m >>= k) s Q
  Ensures-bind m k s R Q hm hk = record {
    at = λ b s'' h.
        let (a, s', first, rest) = bind-returned m k s s'' b h in
        (hk a s' (hm.at a s' first)).at b s'' rest;
  }

module _ {E A : Type 0} where
  pub Ensures-pure : (a : A) (s : State E) (Q : A → State E → Type 0) → Q a s → Ensures (pure a) s Q
  unfolding pure
  Ensures-pure a s Q q = record {
    at = λ b s' h. let e : a ≡ b = cc in let e' : s ≡ s' = cc in rw (← e, ← e') q;
  }

  pub Ensures_of_Silent :
      (m : Task E A) (s : State E)
      → Silent m
      → Ensures m s (λ a s'. recipients s'.events ≡ recipients s.events)
  Ensures_of_Silent m s h = record { at = λ a s' e. h.at s s' a e }

  pub Ensures_of_Sends :
      (m : Task E A) (s : State E) (ids : List String)
      → Sends m ids
      → Ensures m s (λ a s'. recipients s'.events ≡ recipients s.events ++ ids)
  Ensures_of_Sends m s ids h = record { at = λ a s' e. h.at s s' a e }

  pub Ensures-weaken :
      (m : Task E A) (s : State E) (Q R : A → State E → Type 0)
      → Ensures m s Q
      → ((a : A) (s' : State E) → Q a s' → R a s')
      → Ensures m s R
  Ensures-weaken m s Q R h f = record { at = λ a s' e. f a s' (h.at a s' e) }

  pub Ensures-both :
      {Q R : A → State E → Type 0} (m : Task E A) (s : State E)
      → Ensures m s (λ a s'. Q a s')
      → Ensures m s (λ a s'. R a s')
      → Ensures m s (λ a s'. Q a s' × R a s')
  Ensures-both m s h k = record { at = λ a s' e. (h.at a s' e, k.at a s' e) }

  pub Ensures-or_panic :
      (o : Option A) (s : State E) → Ensures (or_panic o) s (λ a s'. (o ≡ some a) × (s' ≡ s))
  unfolding or_panic
  Ensures-or_panic none s = record { at = λ a s' h. cc }
  Ensures-or_panic (some b) s = record { at = λ a s' h. (cc, cc) }

  pub Ensures-or_fail :
      (why : E → JobError E) (r : Result E A) (s : State E)
      → Ensures (or_fail why r) s (λ a s'. (r ≡ ok a) × (s' ≡ s))
  unfolding or_fail pure
  Ensures-or_fail why (ok b) s = record { at = λ a s' h. (cc, cc) }
  Ensures-or_fail why (err e) s = record { at = λ a s' h. cc }

module _ {E : Type 0} (services : Services E) where
  pub Ensures-change :
      (n : CampaignChange) (s : State E)
      → Ensures (change services n) s (λ _ s'.
        (s'.campaign ≡ (update (services.now s.events) n s.campaign).0) × (s'.events ≡ s.events))
  unfolding change
  Ensures-change n s = record { at = λ a s' h. (cc, cc) }

  pub Ensures-save :
      (s : State E)
      → Ensures
          (save services)
          s
          (λ _ s'. (s'.campaign ≡ s.campaign) × (s'.events ≡ s.events ++ saved s.campaign ∷ []))
  unfolding save
  Ensures-save s = record { at = λ a s' h. (cc, cc) }

module _ {E : Type 0} where
  pub Ensures-current : (s : State E) → Ensures current s (λ c s'. (c ≡ s.campaign) × (s' ≡ s))
  unfolding current
  Ensures-current s = record { at = λ a s' h. (cc, cc) }

  pub Ensures-check :
      (why : E → JobError E) (o : Option E) (s : State E)
      → Ensures (check why o) s (λ _ s'. (o ≡ none) × (s' ≡ s))
  unfolding check pure
  Ensures-check why none s = record { at = λ a s' h. (refl, cc) }
  Ensures-check why (some e) s = record { at = λ a s' h. cc }
