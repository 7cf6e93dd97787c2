-- ===== src/Action.antt =====
-- What the handlers are made of: methods that call the database, the clock and the random source.
-- Such a method takes the world `W`, and returns a value or an error together with the world that it
-- leaves. `run_tx` is `RunTx` of repo/orm.go; gorm's `Transaction` is a parameter.
pub mod Atomic
use mirror_backend.Common.{
  String, Bool, true, false, Option, none, some, if◌then◌else◌, Result, ok, err, ◌≡◌, refl,
}

pub data Failure (E : Type 0) : Type 0 where
  -- what the validator of the request rejects
  invalid_request : Failure E
  -- an error that the code makes, with its message
  message : String → Failure E
  -- an error of a call
  failed : E → Failure E
  -- an index out of range
  panicked : Failure E

module _ (W E : Type 0) where
  abbrev pub Action : Type 0 → Type 0
  Action A = W → Result E A × W

module _ {W E A : Type 0} where
  abbrev pub pure : A → Action W E A
  pure a w = (ok a, w)

  abbrev pub raise : E → Action W E A
  raise e w = (err e, w)

  -- a value or an error that is already there
  abbrev pub lift : Result E A → Action W E A
  lift r w = (r, w)

abbrev pub continue : {W E A B : Type 0} → (A → Action W E B) → Result E A × W → Result E B × W
continue f (ok a, w) = f a w
continue f (err e, w) = (err e, w)

infixl 5 ◌>>=◌ ◌>>◌
abbrev pub ◌>>=◌ : {W E A B : Type 0} → Action W E A → (A → Action W E B) → Action W E B
◌>>=◌ m f w = continue f (m w)

abbrev pub ◌>>◌ : {W E A B : Type 0} → Action W E A → Action W E B → Action W E B
m >> k = m >>= λ _. k

-- the same with another error
abbrev pub with_error : {W E A : Type 0} → E → Result E A × W → Result E A × W
with_error e (ok a, w) = (ok a, w)
with_error e (err _, w) = (err e, w)

-- `if err != nil { return stdErr }`
abbrev pub or_raise : {W E A : Type 0} → Action W E A → E → Action W E A
or_raise m e w = with_error e (m w)

pub continue-eq-ok :
    {W E A B : Type 0} (f : A → Action W E B) (r : Result E A × W) {b : B} {w' : W}
    → continue f r ≡ (ok b, w')
    → (a : A) × (v : W) × (r ≡ (ok a, v)) × (f a v ≡ (ok b, w'))
continue-eq-ok f (ok a, v) h = (a, v, refl, h)
continue-eq-ok f (err e, v) h = absurd cc

-- A returned bind: both halves returned.
pub >>=-eq-ok :
    {W E A B : Type 0} (m : Action W E A) (f : A → Action W E B) (w : W) {b : B} {w' : W}
    → (m >>= f) w ≡ (ok b, w')
    → (a : A) × (v : W) × (m w ≡ (ok a, v)) × (f a v ≡ (ok b, w'))
>>=-eq-ok m f w h = continue-eq-ok f (m w) h

-- a value that may be missing
abbrev pub or_fail : {W E A : Type 0} → E → Option A → Action W E A
or_fail e none = raise e
or_fail e (some a) = pure a

-- `if b { return err }`
abbrev pub raise_if : {W E : Type 0} → Bool → E → Action W E Unit
raise_if b e = if b then raise e else pure tt

abbrev pub raise_some : {W E : Type 0} → Option E → Action W E Unit
raise_some none = pure tt
raise_some (some e) = raise e

pub pure-eq-ok :
    {W E A : Type 0} (a : A) (w : W) {b : A} {w' : W}
    → pure {E = E} a w ≡ (ok b, w')
    → (a ≡ b) × (w ≡ w')
pure-eq-ok a w h = (cc, cc)

pub or_fail-eq-ok :
    {W E A : Type 0} (e : E) (o : Option A) (w : W) {a : A} {w' : W}
    → or_fail e o w ≡ (ok a, w')
    → (o ≡ some a) × (w ≡ w')
or_fail-eq-ok e none w h = absurd cc
or_fail-eq-ok e (some b) w h = (cc, cc)

pub raise_if-eq-ok :
    {W E : Type 0} (b : Bool) (e : E) (w : W) {u : Unit} {w' : W}
    → raise_if b e w ≡ (ok u, w')
    → (b ≡ false) × (w ≡ w')
raise_if-eq-ok true e w h = absurd cc
raise_if-eq-ok false e w h = (refl, cc)

pub raise_some-eq-ok :
    {W E : Type 0} (o : Option E) (w : W) {u : Unit} {w' : W}
    → raise_some o w ≡ (ok u, w')
    → (o ≡ none) × (w ≡ w')
raise_some-eq-ok none w h = (refl, cc)
raise_some-eq-ok (some e) w h = absurd cc

pub or_raise-eq-ok :
    {W E A : Type 0} (m : Action W E A) (e : E) (w : W) {a : A} {w' : W}
    → or_raise m e w ≡ (ok a, w')
    → m w ≡ (ok a, w')
or_raise-eq-ok {W = W} {E = E} {A = A} m e w {a = a} {w' = w'} h = with_error-eq-ok (m w) h
  where
    with_error-eq-ok : (r : Result E A × W) → with_error e r ≡ (ok a, w') → r ≡ (ok a, w')
    with_error-eq-ok (ok a', v) h = h
    with_error-eq-ok (err e', v) h = absurd cc

-- gorm's `db.Transaction`
pub record Transactions (W E : Type 0) : Type 1 where
  pub transaction : {A : Type 0} → Action W E A → Action W E A

-- `has_tx` tells whether the context holds a transaction.
unfoldable pub run_tx : {W E A : Type 0} → Transactions W E → Bool → Action W E A → Action W E A
run_tx tx has_tx fn = if has_tx then fn else tx.transaction fn
