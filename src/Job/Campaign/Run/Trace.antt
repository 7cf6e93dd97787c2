-- ===== src/Job/Campaign/Run/Trace.antt =====
-- What the actions of a campaign's goroutine add to its trace: the recipients of the mails sent.
use mirror_backend.Common.{
  String, Option, none, some, List, [], ◌∷◌, ◌++◌, append_assoc, append-nil, ◌≡◌, ◌∙◌, refl, sym,
  ap, Result, ok, err,
}
use mirror_backend.Entity.Campaign.{CampaignChange}
use mirror_backend.Job.Campaign.Task.{
  SendSmtpEmail, JobError, Event, reported, saved, sent, State, Outcome, returned, failed, panicked,
  no_fuel, Services, Task, continue, ◌>>=◌, pure, current, or_fail, check, tolerate, or_panic,
}
use mirror_backend.Job.Campaign.Run.{change, save, send}

pub recipients : {E : Type 0} → List (Event E) → List String
recipients [] = []
recipients (reported status e ∷ es) = recipients es
recipients (saved c ∷ es) = recipients es
recipients (sent mail ∷ es) = mail.to ++ recipients es

pub recipients-append :
    {E : Type 0} (es fs : List (Event E)) → recipients (es ++ fs) ≡ recipients es ++ recipients fs
unfolding recipients
recipients-append [] fs = refl
recipients-append (reported status e ∷ es) fs = recipients-append es fs
recipients-append (saved c ∷ es) fs = recipients-append es fs
recipients-append (sent mail ∷ es) fs =
    ap (λ l. mail.to ++ l) (recipients-append es fs)
    ∙ sym (append_assoc mail.to (recipients es) (recipients fs))

-- Where the action returns, it has sent nothing.
pub record Silent {E A : Type 0} (m : Task E A) : Type 0 where
  pub at :
      (s s' : State E) (a : A) → m s ≡ (returned a, s') → recipients s'.events ≡ recipients s.events

-- Where the action returns, it has sent to `ids` more, in order, and to nobody else.
pub record Sends {E A : Type 0} (m : Task E A) (ids : List String) : Type 0 where
  pub at :
      (s s' : State E) (a : A)
      → m s ≡ (returned a, s')
      → recipients s'.events ≡ recipients s.events ++ ids

module _ {E A B : Type 0} where
  -- inversion of a bind that returned
  pub bind-returned :
      (m : Task E A) (k : A → Task E B) (s s'' : State E) (b : B)
      → (m >>= k) s ≡ (returned b, s'')
      → (a : A) × (s' : State E) × (m s ≡ (returned a, s')) × (k a s' ≡ (returned b, s''))
  unfolding ◌>>=◌
  bind-returned m k s s'' b h = go (m s).0 (m s).1 refl h
    where
      go :
          (o : Outcome E A) (t : State E)
          → m s ≡ (o, t)
          → continue o k t ≡ (returned b, s'')
          → (a : A) × (s' : State E) × (m s ≡ (returned a, s')) × (k a s' ≡ (returned b, s''))
      go (returned a) t e c = (a, t, e, c)
      go (failed x) t e c = cc
      go panicked t e c = cc
      go no_fuel t e c = cc

  pub Silent-bind :
      (m : Task E A) (k : A → Task E B) → Silent m → ((a : A) → Silent (k a)) → Silent (m >>= k)
  Silent-bind m k hm hk = record {
    at = λ s s'' b h.
        let (a, s', first, rest) = bind-returned m k s s'' b h in
        (hk a).at s' s'' b rest ∙ hm.at s s' a first;
  }

  pub Silent-Sends :
      (m : Task E A) (k : A → Task E B) (ids : List String)
      → Silent m
      → ((a : A) → Sends (k a) ids)
      → Sends (m >>= k) ids
  Silent-Sends m k ids hm hk = record {
    at = λ s s'' b h.
        let (a, s', first, rest) = bind-returned m k s s'' b h in
        (hk a).at s' s'' b rest ∙ ap (λ l. l ++ ids) (hm.at s s' a first);
  }

  pub Sends-Silent :
      (m : Task E A) (k : A → Task E B) (ids : List String)
      → Sends m ids
      → ((a : A) → Silent (k a))
      → Sends (m >>= k) ids
  Sends-Silent m k ids hm hk = record {
    at = λ s s'' b h.
        let (a, s', first, rest) = bind-returned m k s s'' b h in
        (hk a).at s' s'' b rest ∙ hm.at s s' a first;
  }

  pub Sends-Sends :
      (m : Task E A) (k : A → Task E B) (ids jds : List String)
      → Sends m ids
      → ((a : A) → Sends (k a) jds)
      → Sends (m >>= k) (ids ++ jds)
  Sends-Sends m k ids jds hm hk = record {
    at = λ s s'' b h.
        let (a, s', first, rest) = bind-returned m k s s'' b h in
        (hk a).at s' s'' b rest
        ∙ ap (λ l. l ++ jds) (hm.at s s' a first)
        ∙ append_assoc (recipients s.events) ids jds;
  }

recipients-concat :
    {E : Type 0} (es : List (Event E)) (e : Event E) (ids : List String)
    → recipients (e ∷ []) ≡ ids
    → recipients (es ++ e ∷ []) ≡ recipients es ++ ids
recipients-concat es e ids h = recipients-append es (e ∷ []) ∙ ap (λ l. recipients es ++ l) h

module _ {E A : Type 0} where
  pub Silent-pure : (a : A) → Silent {E = E} (pure a)
  unfolding pure
  Silent-pure a = record { at = λ s s' b h. let e : s ≡ s' = cc in rw e }

  pub Sends-pure : (a : A) → Sends {E = E} (pure a) []
  Sends-pure a = record {
    at = λ s s' b h. (Silent-pure a).at s s' b h ∙ sym (append-nil (recipients s.events));
  }

  pub Silent-or_fail : (why : E → JobError E) (r : Result E A) → Silent (or_fail why r)
  unfolding or_fail
  Silent-or_fail why (ok a) = Silent-pure a
  Silent-or_fail why (err e) = record { at = λ s s' b h. cc }

  pub Silent-or_panic : (o : Option A) → Silent {E = E} (or_panic o)
  unfolding or_panic
  Silent-or_panic none = record { at = λ s s' b h. cc }
  Silent-or_panic (some a) = record { at = λ s s' b h. let e : s ≡ s' = cc in rw e }

module _ {E : Type 0} where
  pub Silent-current : Silent {E = E} current
  unfolding current
  Silent-current = record { at = λ s s' b h. let e : s ≡ s' = cc in rw e }

  pub Silent-check : (why : E → JobError E) (o : Option E) → Silent (check why o)
  unfolding check
  Silent-check why none = Silent-pure tt
  Silent-check why (some e) = record { at = λ s s' b h. cc }

  pub Silent-tolerate : (why : E → JobError E) (o : Option E) → Silent (tolerate why o)
  unfolding tolerate recipients
  Silent-tolerate why none = Silent-pure tt
  Silent-tolerate why (some e) = record {
    at = λ s s' b h.
        let k = recipients-concat s.events (reported 2 (why e)) [] refl in
        let same : s'.events ≡ s.events ++ reported 2 (why e) ∷ [] = cc in
        rw same (k ∙ append-nil _);
  }

module _ {E : Type 0} (services : Services E) where
  pub Silent-change : (n : CampaignChange) → Silent (change services n)
  unfolding change
  Silent-change n = record { at = λ s s' b h. let e : s'.events ≡ s.events = cc in rw e }

  pub Silent-save : Silent (save services)
  unfolding save recipients
  Silent-save = record {
    at = λ s s' b h.
        let k = recipients-concat s.events (saved s.campaign) [] refl in
        let same : s'.events ≡ s.events ++ saved s.campaign ∷ [] = cc in rw same (k ∙ append-nil _);
  }

  pub Sends-send : (mail : SendSmtpEmail) → Sends (send services mail) mail.to
  unfolding send recipients
  Sends-send mail = record {
    at = λ s s' b h.
        let k = recipients-concat s.events (sent mail) mail.to (append-nil mail.to) in
        let same : s'.events ≡ s.events ++ sent mail ∷ [] = cc in rw same k;
  }
