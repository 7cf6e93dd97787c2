-- ===== src/Text/Decimal.antt =====
-- Printing a number and reading it back.
use Prim.Native.Char.{code}
use mirror_backend.Common.{
  ℕ, zero, suc, ◌+◌, ◌*◌, ◌-◌, ◌/◌, ◌%◌, ◌^◌, ◌<◌, String, some, ltb, pos, ◌≡◌, refl, ap, ◌∙◌,
  arith, Bool-cases, inl, inr, ltb→lt,
}
use mirror_backend.Text.{digit, emit, show, digits_value, at_most, as_int, atoi}

pub code-digit : (d : ℕ) → d < 10 → code (digit d) ≡ 48 + d
code-digit zero h = refl
code-digit (suc zero) h = refl
code-digit (suc (suc zero)) h = refl
code-digit (suc (suc (suc zero))) h = refl
code-digit (suc (suc (suc (suc zero)))) h = refl
code-digit (suc (suc (suc (suc (suc zero))))) h = refl
code-digit (suc (suc (suc (suc (suc (suc zero)))))) h = refl
code-digit (suc (suc (suc (suc (suc (suc (suc zero))))))) h = refl
code-digit (suc (suc (suc (suc (suc (suc (suc (suc zero)))))))) h = refl
code-digit (suc (suc (suc (suc (suc (suc (suc (suc (suc zero))))))))) h = refl
code-digit (suc (suc (suc (suc (suc (suc (suc (suc (suc (suc d)))))))))) h = absurd (omega arith)

-- one digit read
digits_value-digit :
    (n d : ℕ) (s : String)
    → d < 10
    → digits_value n (String.◌∷◌ (digit d) s) ≡ digits_value (n * 10 + d) s
unfolding digits_value
digits_value-digit n d s h =
    rw (code-digit d h) (let e : 48 + d - 48 ≡ d = omega arith in rw e (ground arith))

digits_value_eq : (m n : ℕ) (s : String) → m ≡ n → digits_value m s ≡ digits_value n s
digits_value_eq m n s e = ap (λ k. digits_value k s) e

pub digits_value-emit :
    (fuel n : ℕ) (out : String) → n < fuel → digits_value 0 (emit fuel n out) ≡ digits_value n out
unfolding emit
digits_value-emit zero n out h = absurd (omega arith)
digits_value-emit (suc fuel) n out h = elim (Bool-cases (ltb n 10)) [
  | inl small ↦
      rw small
        (digits_value-digit 0 n out (ltb→lt n 10 small) ∙ digits_value_eq _ n out (omega arith))
  | inr large ↦ rw large (
      digits_value-emit fuel (n / 10) _ (ground arith)
      ∙ digits_value-digit (n / 10) (n % 10) out (omega arith)
      ∙ digits_value_eq _ n out (omega arith))
]

-- Reading a printed number gives it back.
pub digits_value-show : (n : ℕ) → digits_value 0 (show n) ≡ some n
unfolding show digits_value
digits_value-show n = digits_value-emit (suc n) n "" (omega arith)

pub show_injective : (m n : ℕ) → show m ≡ show n → m ≡ n
show_injective m n e = cc (digits_value-show m, digits_value-show n, e)

-- The first character of a printed number is a digit.
data IsNumeral : String → Type 0 where
  numeral : (d : ℕ) (s : String) → d < 10 → IsNumeral (String.◌∷◌ (digit d) s)

emit-IsNumeral : (fuel n : ℕ) (out : String) → n < fuel → IsNumeral (emit fuel n out)
unfolding emit
emit-IsNumeral zero n out h = absurd (omega arith)
emit-IsNumeral (suc fuel) n out h = elim (Bool-cases (ltb n 10)) [
  | inl small ↦ rw small (numeral n out (ltb→lt n 10 small))
  | inr large ↦ rw large (emit-IsNumeral fuel (n / 10) _ (ground arith))
]

atoi-numeral :
    {s : String} → IsNumeral s → atoi s ≡ as_int pos (at_most (2 ^ 63 - 1) (digits_value 0 s))
unfolding atoi
atoi-numeral (numeral d s h) = rw (code-digit d h) (ground arith)

-- `Atoi` reads a number that `%d` printed, if it fits an int64.
pub atoi-show : (n : ℕ) → n < 2 ^ 63 → atoi (show n) ≡ some (pos n)
unfolding show at_most
atoi-show n h =
    atoi-numeral (emit-IsNumeral (suc n) n "" (omega arith))
    ∙ rw (digits_value-show n) (ground arith)
