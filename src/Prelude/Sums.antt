-- ===== src/Prelude/Sums.antt =====
-- Sums over lists, of a weight of each element.
use mathlib.Core.Path.{◌≡◌, refl}
use mathlib.Core.Bool.{Bool}
use mathlib.Core.List.{List, [], ◌∷◌, ◌++◌}
use native.Mathlib.Omega.{arith}
use g_lm.Prelude.{ℕ, zero, suc, ◌+◌, ◌≤◌, keep, take}
use g_lm.Prelude.Sorting.{sort_insert, sort_slice}

abbrev pub sum_of : {A : Type 0} → (A → ℕ) → List A → ℕ
sum_of f [] = 0
sum_of f (x ∷ xs) = f x + sum_of f xs

module _ {A : Type 0} (f : A → ℕ) where
  pub sum_of-append : (xs ys : List A) → sum_of f (xs ++ ys) ≡ sum_of f xs + sum_of f ys
  sum_of-append [] ys = omega arith
  sum_of-append (x ∷ xs) ys = omega (arith, sum_of-append xs ys)

  pub sum_of-keep : (p : A → Bool) (xs : List A) → sum_of f (keep p xs) ≤ sum_of f xs
  unfolding keep
  sum_of-keep p [] = omega arith
  sum_of-keep p (x ∷ xs) = ground (arith, sum_of-keep p xs)

  pub sum_of-take : (n : ℕ) (xs : List A) → sum_of f (take n xs) ≤ sum_of f xs
  sum_of-take zero xs = omega arith
  sum_of-take (suc n) [] = omega arith
  sum_of-take (suc n) (x ∷ xs) = omega (arith, sum_of-take n xs)

  module _ (less : A → A → Bool) where
    sum_of-sort_insert :
        (x : A) (ys : List A) → sum_of f (sort_insert less x ys) ≡ f x + sum_of f ys
    unfolding sort_insert
    sum_of-sort_insert x [] = refl
    sum_of-sort_insert x (y ∷ ys) = ground (arith, sum_of-sort_insert x ys)

    pub sum_of-sort_slice : (xs : List A) → sum_of f (sort_slice less xs) ≡ sum_of f xs
    unfolding sort_slice
    sum_of-sort_slice [] = refl
    sum_of-sort_slice (x ∷ xs) =
        omega (arith, sum_of-sort_insert x (sort_slice less xs), sum_of-sort_slice xs)
