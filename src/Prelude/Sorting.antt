-- ===== src/Prelude/Sorting.antt =====
-- sort.Slice, as an insertion sort: one of the orders that the package allows, with elements that
-- compare equal left in the order of the input.
use mathlib.Core.Path.{◌≡◌, refl}
use mathlib.Core.Bool.{Bool, true, false, ◌&&◌, ◌||◌}
use mathlib.Core.Logic.{inl, inr}
use mathlib.Core.List.{List, [], ◌∷◌}
use native.Mathlib.Omega.{arith}
use g_lm.Prelude.Tests.{ltb, ◌==◌, if◌then◌else◌, Bool-cases}
use g_lm.Prelude.Texts.{Text}
use g_lm.Prelude.Lists.{length, Elem, All}

-- The order of strings: by bytes, a prefix first.
unfoldable pub text_less : Text → Text → Bool
text_less s [] = false
text_less [] (d ∷ t) = true
text_less (c ∷ s) (d ∷ t) = ltb c d || (c == d && text_less s t)

module _ {A : Type 0} (less : A → A → Bool) where
  unfoldable pub sort_insert : A → List A → List A
  sort_insert x [] = x ∷ []
  sort_insert x (y ∷ ys) = let rest = y ∷ sort_insert x ys in if less y x then rest else x ∷ y ∷ ys

  unfoldable pub sort_slice : List A → List A
  unfolding sort_insert
  sort_slice [] = []
  sort_slice (x ∷ xs) = sort_insert x (sort_slice xs)

  length-sort_insert : (x : A) (ys : List A) → length (sort_insert x ys) ≡ length (x ∷ ys)
  unfolding sort_insert
  length-sort_insert x [] = refl
  length-sort_insert x (y ∷ ys) = ground (arith, length-sort_insert x ys)

  pub length-sort_slice : (xs : List A) → length (sort_slice xs) ≡ length xs
  unfolding sort_slice
  length-sort_slice [] = refl
  length-sort_slice (x ∷ xs) =
      omega (arith, length-sort_insert x (sort_slice xs), length-sort_slice xs)

  Elem-sort_insert : (a x : A) (ys : List A) → Elem a (sort_insert x ys) → Elem a (x ∷ ys)
  unfolding sort_insert
  Elem-sort_insert a x [] h = h
  Elem-sort_insert a x (y ∷ ys) h = ground (arith, Elem-sort_insert a x ys)

  Elem-sort_insert_of : (a x : A) (ys : List A) → Elem a (x ∷ ys) → Elem a (sort_insert x ys)
  unfolding sort_insert
  Elem-sort_insert_of a x [] h = h
  Elem-sort_insert_of a x (y ∷ ys) h = ground (arith, Elem-sort_insert_of a x ys)

  pub Elem-sort_slice : (a : A) (xs : List A) → Elem a (sort_slice xs) → Elem a xs
  unfolding sort_slice
  Elem-sort_slice a [] h = h
  Elem-sort_slice a (x ∷ xs) h =
      ground (arith, Elem-sort_insert a x (sort_slice xs) h, Elem-sort_slice a xs)

  pub Elem-sort_slice_of : (a : A) (xs : List A) → Elem a xs → Elem a (sort_slice xs)
  unfolding sort_slice
  Elem-sort_slice_of a [] h = h
  Elem-sort_slice_of a (x ∷ xs) h =
      ground (arith, Elem-sort_insert_of a x (sort_slice xs), Elem-sort_slice_of a xs)

  -- No element comes after one that it is less than.
  abbrev pub IsSorted : List A → Type 0
  IsSorted [] = Unit
  IsSorted (x ∷ xs) = All (λ y. less y x ≡ false) xs × IsSorted xs

  module _ (asymm : (x y : A) → less x y ≡ true → less y x ≡ false)
      (trans : (x y z : A) → less y x ≡ false → less z y ≡ false → less z x ≡ false) where
    All-sort_insert :
        (b x : A) (ys : List A)
        → less x b ≡ false
        → All (λ y. less y b ≡ false) ys
        → All (λ y. less y b ≡ false) (sort_insert x ys)
    unfolding sort_insert
    All-sort_insert b x [] h k = (h, tt)
    All-sort_insert b x (y ∷ ys) h k = ground (arith, All-sort_insert b x ys h k.1)

    All-trans :
        (x y : A) (ys : List A)
        → less y x ≡ false
        → All (λ z. less z y ≡ false) ys
        → All (λ z. less z x ≡ false) ys
    All-trans x y [] h k = tt
    All-trans x y (z ∷ zs) h k = (trans x y z h k.0, All-trans x y zs h k.1)

    sort_insert-IsSorted : (x : A) (ys : List A) → IsSorted ys → IsSorted (sort_insert x ys)
    unfolding sort_insert
    sort_insert-IsSorted x [] h = (tt, tt)
    sort_insert-IsSorted x (y ∷ ys) h = elim (Bool-cases (less y x)) [
      | inl e ↦ rw e (All-sort_insert y x ys (asymm y x e) h.0, sort_insert-IsSorted x ys h.1)
      | inr e ↦ rw e ((e, All-trans x y ys e h.0), h)
    ]

    pub sort_slice-IsSorted : (xs : List A) → IsSorted (sort_slice xs)
    unfolding sort_slice
    sort_slice-IsSorted [] = tt
    sort_slice-IsSorted (x ∷ xs) = sort_insert-IsSorted x (sort_slice xs) (sort_slice-IsSorted xs)
