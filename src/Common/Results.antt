-- ===== src/Common/Results.antt =====
-- The results of Go functions: `(value, error)` as a value or an error, `error` alone as an option
-- whose `none` is nil, and the signed integers.
use Prim.Native.Nat.{ℕ, zero, suc}
use mathlib.Core.Path.{◌≡◌, refl}
use mathlib.Core.Option.{Option, none, some}

pub data Result (E A : Type 0) : Type 0 where
  ok : A → Result E A
  err : E → Result E A

abbrev pub is_ok : {E A : Type 0} → Result E A → Option A
is_ok (ok a) = some a
is_ok (err e) = none

-- `if err := a; err != nil { return err }; return b`
abbrev pub first_error {ℓ} : {E : Type ℓ} → Option E → Option E → Option E
first_error none b = b
first_error (some e) b = some e

pub first_error-eq-none {ℓ} :
    {E : Type ℓ} (a b : Option E) → first_error a b ≡ none → (a ≡ none) × (b ≡ none)
first_error-eq-none none b h = (refl, h)
first_error-eq-none (some e) b h = cc

-- `negsuc n` is -(n + 1).
pub data ℤ : Type 0 where
  pos : ℕ → ℤ
  negsuc : ℕ → ℤ

abbrev pub negate : ℕ → ℤ
negate zero = pos zero
negate (suc n) = negsuc n
