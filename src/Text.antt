-- ===== src/Text.antt =====
-- What the program uses of Go's `strings` and `strconv` on texts: `strings.Split` at one character,
-- `%d` for an unsigned number, and `strconv.Atoi`.
pub mod Decimal
pub mod Splitting
pub mod Joining
pub mod Inversion
use Prim.Native.Char.{Char, code}
use mirror_backend.Common.{
  ℕ, zero, suc, ◌+◌, ◌-◌, ◌*◌, ◌/◌, ◌%◌, ◌^◌, ◌<◌, String, Bool, ◌&&◌, Option, none, some, List, [],
  ◌∷◌, ◌==◌, ltb, leb, if◌then◌else◌, ℤ, pos, negate, ◌≡◌, ◌≢◌, refl, arith, all,
}

-- `p` with `c` in front of its first part
abbrev push_head : Char → List String → List String
push_head c [] = String.◌∷◌ c "" ∷ []
push_head c (p ∷ ps) = String.◌∷◌ c p ∷ ps

-- strings.Split(s, sep), where `sep` is the code of one character
unfoldable pub split : ℕ → String → List String
split sep String.[] = "" ∷ []
split sep (String.◌∷◌ c s) =
    let rest = split sep s in if code c == sep then "" ∷ rest else push_head c rest

abbrev pub digit : ℕ → Char
digit zero = "0"
digit (suc zero) = "1"
digit (suc (suc zero)) = "2"
digit (suc (suc (suc zero))) = "3"
digit (suc (suc (suc (suc zero)))) = "4"
digit (suc (suc (suc (suc (suc zero))))) = "5"
digit (suc (suc (suc (suc (suc (suc zero)))))) = "6"
digit (suc (suc (suc (suc (suc (suc (suc zero))))))) = "7"
digit (suc (suc (suc (suc (suc (suc (suc (suc zero)))))))) = "8"
digit _ = "9"

-- the digits of `n` in front of `out`; the fuel bounds their number
unfoldable pub emit : ℕ → ℕ → String → String
emit zero n out = out
emit (suc fuel) n out =
    let more = emit fuel (n / 10) (String.◌∷◌ (digit (n % 10)) out) in
    if ltb n 10 then String.◌∷◌ (digit n) out else more

-- fmt.Sprintf("%d", n)
unfoldable pub show : ℕ → String
unfolding emit
show n = emit (suc n) n ""

-- the value of a row of decimal digits behind those that gave `n`
unfoldable pub digits_value : ℕ → String → Option ℕ
digits_value n String.[] = some n
digits_value n (String.◌∷◌ c s) =
    let d = code c in
    let rest = digits_value (n * 10 + (d - 48)) s in if leb 48 d && leb d 57 then rest else none

at_most : ℕ → Option ℕ → Option ℕ
at_most top none = none
at_most top (some n) = if ltb top n then none else some n

abbrev as_int : (ℕ → ℤ) → Option ℕ → Option ℤ
as_int f none = none
as_int f (some n) = some (f n)

-- at least one digit
row : String → Option ℕ
unfolding digits_value
row String.[] = none
row (String.◌∷◌ c s) = digits_value 0 (String.◌∷◌ c s)

-- strconv.Atoi(s): a sign or none, then digits, in the range of int64
unfoldable pub atoi : String → Option ℤ
unfolding row at_most
atoi String.[] = none
atoi (String.◌∷◌ c s) =
    if code c == b'-'
    then as_int negate (at_most (2 ^ 63) (row s))
    else if code c == b'+'
    then as_int pos (at_most (2 ^ 63 - 1) (row s))
    else as_int pos (at_most (2 ^ 63 - 1) (row (String.◌∷◌ c s)))
