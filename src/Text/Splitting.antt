-- ===== src/Text/Splitting.antt =====
-- `strings.Split` at one character.
use Prim.Native.Char.{Char, code}
use Prim.Native.String.{◌++◌}
use text.Mathlib.TextLemmas.{nil-append, cons-append}
use mirror_backend.Common.{
  ℕ, zero, suc, ◌+◌, ◌/◌, ◌%◌, ◌<◌, ◌≤◌, String, List, [], ◌∷◌, ◌==◌, ltb, ◌≡◌, ◌≢◌, ◌⊎◌, refl,
  arith, Bool, true, false, ◌||◌, Bool-cases, inl, inr, ltb→lt, length,
}
use mirror_backend.Text.{push_head, split, emit, show}
use mirror_backend.Text.Decimal.{code-digit}

-- `sep` is not in the text
abbrev pub Lacks : ℕ → String → Type 0
Lacks sep String.[] = Unit
Lacks sep (String.◌∷◌ c s) = (code c ≢ sep) × Lacks sep s

-- `strings.Contains` of one character
unfoldable pub has_char : ℕ → String → Bool
has_char sep String.[] = false
has_char sep (String.◌∷◌ c s) = code c == sep || has_char sep s

pub has_char-Lacks : (sep : ℕ) (s : String) → has_char sep s ≡ false → Lacks sep s
unfolding has_char
has_char-Lacks sep String.[] h = tt
has_char-Lacks sep (String.◌∷◌ c s) h =
    let apart : (code c ≢ sep) × (has_char sep s ≡ false) = ground arith in
    (apart.0, has_char-Lacks sep s apart.1)

pub split-Lacks : (sep : ℕ) (s : String) → Lacks sep s → split sep s ≡ s ∷ []
unfolding split
split-Lacks sep String.[] h = refl
split-Lacks sep (String.◌∷◌ c s) h = ground (arith, split-Lacks sep s h.1)

-- The text up to the first separator is the first part.
pub split-append :
    (sep : ℕ) (a : String) (c : Char) (b : String)
    → Lacks sep a
    → code c ≡ sep
    → split sep (a ++ String.◌∷◌ c b) ≡ a ∷ split sep b
unfolding split
split-append sep String.[] c b h e = rw nil-append (ground arith)
split-append sep (String.◌∷◌ d a) c b h e =
    rw cons-append (ground (arith, split-append sep a c b h.1 e))

-- No more parts than the text in front of the separator and behind it give.
length-push_head : (c : Char) (ps : List String) → length ps ≤ length (push_head c ps)
length-push_head c [] = omega arith
length-push_head c (p ∷ ps) = omega arith

pub split-nonempty : (sep : ℕ) (s : String) → 1 ≤ length (split sep s)
unfolding split
split-nonempty sep String.[] = omega arith
split-nonempty sep (String.◌∷◌ c s) =
    ground (arith, split-nonempty sep s, length-push_head c (split sep s))

-- A second part at least, where the text holds the separator.
pub split-behind :
    (sep : ℕ) (a : String) (c : Char) (b : String)
    → code c ≡ sep
    → length (split sep b) + 1 ≤ length (split sep (a ++ String.◌∷◌ c b))
unfolding split
split-behind sep String.[] c b e = rw nil-append (ground arith)
split-behind sep (String.◌∷◌ d a) c b e =
    rw cons-append (
      ground
        (arith, split-behind sep a c b e, length-push_head d (split sep (a ++ String.◌∷◌ c b))))

-- One more part for each separator in front.
pub split-has_char :
    (sep : ℕ) (a : String) (c : Char) (b : String)
    → has_char sep a ≡ true
    → code c ≡ sep
    → 3 ≤ length (split sep (a ++ String.◌∷◌ c b))
unfolding split has_char
split-has_char sep String.[] c b h e = cc
split-has_char sep (String.◌∷◌ d a) c b h e = rw cons-append (elim (Bool-cases (code d == sep)) [
  | inl here ↦ rw here (omega (arith, split-behind sep a c b e, split-nonempty sep b))
  | inr there ↦ rw there (
      let ih = split-has_char sep a c b (ground arith) e in
      omega (arith, length-push_head d (split sep (a ++ String.◌∷◌ c b))))
])

emit-Lacks :
    (sep fuel n : ℕ) (out : String)
    → sep < 48 ⊎ 57 < sep
    → n < fuel
    → Lacks sep out
    → Lacks sep (emit fuel n out)
unfolding emit
emit-Lacks sep zero n out far h k = absurd (omega arith)
emit-Lacks sep (suc fuel) n out far h k = elim (Bool-cases (ltb n 10)) [
  | inl small ↦ let lt = ltb→lt n 10 small in let d = code-digit n lt in rw small (omega arith, k)
  | inr large ↦
      let d = code-digit (n % 10) (omega arith) in
      rw large (emit-Lacks sep fuel (n / 10) _ far (ground arith) (omega arith, k))
]

pub show-Lacks : (sep n : ℕ) → sep < 48 ⊎ 57 < sep → Lacks sep (show n)
unfolding show
show-Lacks sep n far = emit-Lacks sep (suc n) n "" far (omega arith) tt
