-- ===== src/Prelude/Maps.antt =====
-- Go maps with string keys, as association lists. The order of the entries stands for one order in
-- which Go may range over the map.
use mathlib.Core.Path.{◌≡◌, refl, ap}
use mathlib.Core.Bool.{false}
use mathlib.Core.Logic.{◌⊎◌, inl, inr, ◌≢◌}
use mathlib.Core.Option.{Option, none, some}
use mathlib.Core.List.{List, [], ◌∷◌, map}
use Prim.Native.Nat.{◌+◌, ◌≤◌}
use native.Mathlib.Omega.{arith}
use g_lm.Prelude.Tests.{if◌then◌else◌}
use g_lm.Prelude.Lists.{length, Elem}
use g_lm.Prelude.Texts.{Text, text_eq, text_eq_iff}

module _ {ℓ} where
  abbrev pub Map : Type ℓ → Type ℓ
  Map V = List (Text × V)

abbrev pub values {ℓ} : {V : Type ℓ} → Map V → List V
values = map (λ e. e.1)

module _ {ℓ} {V : Type ℓ} where
  -- v, ok := m[k]
  unfoldable pub lookup : Text → Map V → Option V
  lookup k [] = none
  lookup k ((j, v) ∷ m) = if text_eq j k then some v else lookup k m

  -- m[k] = v
  unfoldable pub insert : Text → V → Map V → Map V
  insert k v [] = (k, v) ∷ []
  insert k v ((j, w) ∷ m) = if text_eq j k then (k, v) ∷ m else (j, w) ∷ insert k v m

  -- delete(m, k)
  unfoldable pub erase : Text → Map V → Map V
  erase k [] = []
  erase k ((j, w) ∷ m) = let rest = erase k m in if text_eq j k then rest else (j, w) ∷ rest

  pub lookup-insert :
      (k j : Text) (v : V) (m : Map V)
      → lookup j (insert k v m) ≡ (if text_eq k j then some v else lookup j m)
  unfolding lookup insert
  lookup-insert k j v [] = refl
  lookup-insert k j v ((i, w) ∷ m) =
      ground (arith, text_eq_iff k j, text_eq_iff i k, text_eq_iff i j, lookup-insert k j v m)

  pub lookup-erase :
      (k j : Text) (m : Map V) → lookup j (erase k m) ≡ (if text_eq k j then none else lookup j m)
  unfolding lookup erase
  lookup-erase k j [] = ground arith
  lookup-erase k j ((i, w) ∷ m) =
      ground (arith, text_eq_iff k j, text_eq_iff i k, text_eq_iff i j, lookup-erase k j m)

  pub length-insert-le : (k : Text) (v : V) (m : Map V) → length (insert k v m) ≤ length m + 1
  unfolding insert
  length-insert-le k v [] = omega arith
  length-insert-le k v ((j, w) ∷ m) = ground (arith, length-insert-le k v m)

module _ {V : Type 0} where
  pub Elem-of_lookup : (k : Text) (v : V) (m : Map V) → lookup k m ≡ some v → Elem (k, v) m
  unfolding lookup
  Elem-of_lookup k v [] h = cc
  Elem-of_lookup k v ((j, w) ∷ m) h = ground (arith, text_eq_iff j k, Elem-of_lookup k v m)

  pub Elem-insert :
      (k j : Text) (v w : V) (m : Map V)
      → Elem (j, w) (insert k v m)
      → ((j ≡ k) × (w ≡ v)) ⊎ Elem (j, w) m
  unfolding insert
  Elem-insert k j v w [] h = ground arith
  Elem-insert k j v w ((i, u) ∷ m) h = ground (arith, Elem-insert k j v w m)

  pub Elem-erase : (k j : Text) (w : V) (m : Map V) → Elem (j, w) (erase k m) → Elem (j, w) m
  unfolding erase
  Elem-erase k j w [] h = absurd h
  Elem-erase k j w ((i, u) ∷ m) h = ground (arith, Elem-erase k j w m)

module _ {V : Type 0} where
  -- Each key stands once, as in every Go map.
  abbrev pub IsMap : Map V → Type 0
  IsMap [] = Unit
  IsMap ((k, v) ∷ m) = (lookup k m ≡ none) × IsMap m

  pub insert-IsMap : (k : Text) (v : V) (m : Map V) → IsMap m → IsMap (insert k v m)
  unfolding insert lookup
  insert-IsMap k v [] h = (refl, tt)
  insert-IsMap k v ((j, w) ∷ m) h =
      ground
        (arith, insert-IsMap k v m h.1, lookup-insert k j v m, text_eq_iff j k, text_eq_iff k j)

  pub erase-IsMap : (k : Text) (m : Map V) → IsMap m → IsMap (erase k m)
  unfolding erase
  erase-IsMap k [] h = tt
  erase-IsMap k ((j, w) ∷ m) h = ground (arith, erase-IsMap k m h.1, lookup-erase k j m)

  pub Elem-erase_ne :
      (k j : Text) (w : V) (m : Map V)
      → text_eq j k ≡ false
      → Elem (j, w) m
      → Elem (j, w) (erase k m)
  unfolding erase
  Elem-erase_ne k j w [] e h = h
  Elem-erase_ne k j w ((i, u) ∷ m) e h = ground (arith, Elem-erase_ne k j w m e)

  pub erase_of_none : (k : Text) (m : Map V) → lookup k m ≡ none → erase k m ≡ m
  unfolding erase lookup
  erase_of_none k [] h = refl
  erase_of_none k ((j, w) ∷ m) h = ground (arith, erase_of_none k m)

  -- A delete takes one entry away at most.
  pub length-le-erase : (k : Text) (m : Map V) → IsMap m → length m ≤ length (erase k m) + 1
  unfolding erase
  length-le-erase k [] h = omega arith
  length-le-erase k ((j, w) ∷ m) h =
      ground (arith, length-le-erase k m h.1, text_eq_iff j k, erase_of_none k m)

  pub Elem-values : (e : Text × V) (m : Map V) → Elem e m → Elem e.1 (values m)
  Elem-values e [] h = absurd h
  Elem-values e (x ∷ m) (inl p) = inl (ap (λ (q : Text × V). q.1) p)
  Elem-values e (x ∷ m) (inr h) = inr (Elem-values e m h)

  pub lookup_of_Elem : (k : Text) (v : V) (m : Map V) → Elem (k, v) m → lookup k m ≢ none
  unfolding lookup
  lookup_of_Elem k v [] h = absurd h
  lookup_of_Elem k v ((j, w) ∷ m) h = ground (arith, text_eq_iff j k, lookup_of_Elem k v m)
