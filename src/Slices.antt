-- ===== src/Slices.antt =====
-- Go's slice expression `xs[lo:hi]`, where the slice has no spare capacity: `none` is the panic
-- "slice bounds out of range".
use mirror_backend.Common.{
  ℕ, zero, suc, ◌+◌, ◌-◌, ◌≤◌, ◌||◌, Option, none, some, List, [], ◌∷◌, ◌++◌, ltb, if◌then◌else◌,
  length, take, drop, ◌≡◌, refl, arith, take-append-drop,
}

module _ {A : Type 0} where
  unfoldable pub slice_range : List A → ℕ → ℕ → Option (List A)
  slice_range xs lo hi =
      if ltb hi lo || ltb (length xs) hi then none else some (take (hi - lo) (drop lo xs))

  pub drop-drop : (m n : ℕ) (xs : List A) → drop m (drop n xs) ≡ drop (n + m) xs
  drop-drop m zero xs = let e : 0 + m ≡ m = omega arith in rw e
  drop-drop zero (suc n) [] = let e : suc n + 0 ≡ suc n = omega arith in rw e
  drop-drop (suc m) (suc n) [] = let e : suc n + suc m ≡ suc (n + suc m) = omega arith in rw e
  drop-drop m (suc n) (x ∷ xs) =
      let e : suc n + m ≡ suc (n + m) = omega arith in rw e (drop-drop m n xs)

  pub drop-all : (n : ℕ) (xs : List A) → length xs ≤ n → drop n xs ≡ []
  drop-all zero [] h = refl
  drop-all zero (x ∷ xs) h = absurd (omega arith)
  drop-all (suc n) [] h = refl
  drop-all (suc n) (x ∷ xs) h = drop-all n xs (omega arith)

  -- a slice in range
  pub slice_range_in_range :
      (xs : List A) (lo hi : ℕ)
      → lo ≤ hi
      → hi ≤ length xs
      → slice_range xs lo hi ≡ some (take (hi - lo) (drop lo xs))
  unfolding slice_range
  slice_range_in_range xs lo hi h k = ground arith

  pub take-drop-append :
      (xs : List A) (lo hi : ℕ) → lo ≤ hi → take (hi - lo) (drop lo xs) ++ drop hi xs ≡ drop lo xs
  take-drop-append xs lo hi h =
      let e : lo + (hi - lo) ≡ hi = omega arith in
      let k : lo + (hi - lo) - lo ≡ hi - lo = omega arith in
      rw (← e) (rw (← drop-drop (hi - lo) lo xs, k) (take-append-drop (hi - lo) (drop lo xs)))

  pub slice_range_bounds :
      (xs : List A) (lo hi : ℕ) {ys : List A}
      → slice_range xs lo hi ≡ some ys
      → (lo ≤ hi) × (hi ≤ length xs) × (ys ≡ take (hi - lo) (drop lo xs))
  unfolding slice_range
  slice_range_bounds xs lo hi h = ground arith
