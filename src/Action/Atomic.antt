-- ===== src/Action/Atomic.antt =====
-- Actions that read only, and actions that write nothing where they fail. `db` is the part of the
-- world that a transaction rolls back.
use mirror_backend.Common.{Bool, true, false, Option, none, some, Result, ok, err, ◌≡◌, refl, ◌∙◌}
use mirror_backend.Action.{
  Action, pure, raise, continue, ◌>>=◌, with_error, or_raise, or_fail, raise_if, raise_some,
  Transactions, run_tx,
}

module _ {W E Db : Type 0} (db : W → Db) where
  -- whatever the action returns, the database is as before
  pub record Reads {A : Type 0} (m : Action W E A) : Type 0 where
    pub same : (w : W) → db (m w).1 ≡ db w

  -- where the action returns an error, the database is as before
  pub record IsSafe {A : Type 0} (m : Action W E A) : Type 0 where
    pub same : (w w' : W) (e : E) → m w ≡ (err e, w') → db w' ≡ db w

  -- What the code relies on of a transaction: an error rolls it back, and otherwise it did what its
  -- function did.
  pub record IsAtomic (tx : Transactions W E) : Type 1 where
    pub rolls_back : {A : Type 0} (m : Action W E A) → IsSafe (tx.transaction m)
    pub commits :
        {A : Type 0} (m : Action W E A) (w w' : W) (a : A)
        → tx.transaction m w ≡ (ok a, w')
        → m w ≡ (ok a, w')

module _ {W E Db A : Type 0} (db : W → Db) where
  pub Reads-IsSafe : (m : Action W E A) → Reads db m → IsSafe db m
  Reads-IsSafe m h = record { same = λ w w' e p. let hw = h.same w in cc }

  pub raise-IsSafe : (e : E) → IsSafe db (raise {A = A} e)
  raise-IsSafe e = record { same = λ w w' e' p. cc }

  pub or_fail-Reads : (e : E) (o : Option A) → Reads db (or_fail e o)
  or_fail-Reads e none = record { same = λ w. refl }
  or_fail-Reads e (some a) = record { same = λ w. refl }

  with_error-db :
      (e : E) (w : W) (r : Result E A × W) → db r.1 ≡ db w → db (with_error e r).1 ≡ db w
  with_error-db e w (ok a, w') p = p
  with_error-db e w (err _, w') p = p

  pub pure-Reads : (a : A) → Reads {E = E} db (pure a)
  pure-Reads a = record { same = λ w. refl }

  pub or_raise-Reads : (m : Action W E A) (e : E) → Reads db m → Reads db (or_raise m e)
  or_raise-Reads m e h = record { same = λ w. with_error-db e w (m w) (h.same w) }

module _ {W E Db : Type 0} (db : W → Db) where
  pub raise_if-Reads : (b : Bool) (e : E) → Reads db (raise_if b e)
  raise_if-Reads true e = record { same = λ w. refl }
  raise_if-Reads false e = record { same = λ w. refl }

  pub raise_some-Reads : (o : Option E) → Reads db (raise_some o)
  raise_some-Reads none = record { same = λ w. refl }
  raise_some-Reads (some e) = record { same = λ w. refl }

continue-pure-eq-err :
    {W E A B : Type 0} (g : A → B) (r : Result E A × W) (e : E) (w' : W)
    → continue (λ a. pure (g a)) r ≡ (err e, w')
    → r ≡ (err e, w')
continue-pure-eq-err g (ok a, v) e w' h = absurd cc
continue-pure-eq-err g (err e', v) e w' h = cc

module _ {W E Db A B : Type 0} (db : W → Db) where
  continue-Reads :
      (f : A → Action W E B) (w : W) (r : Result E A × W)
      → ((a : A) → Reads db (f a))
      → db r.1 ≡ db w
      → db (continue f r).1 ≡ db w
  continue-Reads f w (ok a, v) hf p = (hf a).same v ∙ p
  continue-Reads f w (err e, v) hf p = p

  pub >>=-Reads :
      (m : Action W E A) (f : A → Action W E B)
      → Reads db m
      → ((a : A) → Reads db (f a))
      → Reads db (m >>= f)
  >>=-Reads m f hm hf = record { same = λ w. continue-Reads f w (m w) hf (hm.same w) }

  continue-IsSafe :
      (f : A → Action W E B) (w w' : W) (r : Result E A × W) (e : E)
      → ((a : A) → IsSafe db (f a))
      → db r.1 ≡ db w
      → continue f r ≡ (err e, w')
      → db w' ≡ db w
  continue-IsSafe f w w' (ok a, v) e hf p h = (hf a).same v w' e h ∙ p
  continue-IsSafe f w w' (err e', v) e hf p h = cc

  pub >>=-IsSafe :
      (m : Action W E A) (f : A → Action W E B)
      → Reads db m
      → ((a : A) → IsSafe db (f a))
      → IsSafe db (m >>= f)
  >>=-IsSafe m f hm hf = record {
    same = λ w w' e h. continue-IsSafe f w w' (m w) e hf (hm.same w) h;
  }

  -- A pure end may follow what is safe.
  pub pure-IsSafe : (m : Action W E A) (g : A → B) → IsSafe db m → IsSafe db (m >>= λ a. pure (g a))
  pure-IsSafe m g hm = record {
    same = λ w w' e h. hm.same w w' e (continue-pure-eq-err g (m w) e w' h);
  }

pub run_tx-IsSafe :
    {W E Db A : Type 0} (db : W → Db) (tx : Transactions W E) (m : Action W E A)
    → IsAtomic db tx
    → IsSafe db (run_tx tx false m)
unfolding run_tx
run_tx-IsSafe db tx m h = h.rolls_back m

-- What returned from `run_tx` is what its function returned.
pub run_tx-commits :
    {W E Db A : Type 0} (db : W → Db) (tx : Transactions W E) (has_tx : Bool) (m : Action W E A)
    {w w' : W} {a : A}
    → IsAtomic db tx
    → run_tx tx has_tx m w ≡ (ok a, w')
    → m w ≡ (ok a, w')
unfolding run_tx
run_tx-commits db tx true m h e = e
run_tx-commits db tx false m h e = h.commits m _ _ _ e
