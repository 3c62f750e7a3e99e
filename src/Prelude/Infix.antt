-- ===== src/Prelude/Infix.antt =====
-- Parts of texts: strings.Contains, strings.TrimSpace and strings.FieldsFunc by what they find.
use mathlib.Core.Path.{◌≡◌, refl, sym, ap, ◌∙◌, subst}
use mathlib.Core.Bool.{Bool, true, false}
use mathlib.Core.Logic.{◌⊎◌, inl, inr}
use mathlib.Core.List.{List, [], ◌∷◌, ◌++◌, reverse, append_assoc, append-nil, reverse-cons}
use native.Mathlib.Omega.{arith}
use Prim.Native.Nat.{ℕ}
use g_lm.Prelude.Tests.{if◌then◌else◌, Bool-cases}
use g_lm.Prelude.Lists.{All, Elem}
use g_lm.Prelude.Texts.{
  Text, is_empty, lower, lower_idem, to_lower, is_space, trim_left, trim_space, has_prefix,
  drop_prefix, contains, has_prefix-append, append-drop_prefix,
}
use g_lm.Prelude.Tokens.{pieces_after, fields_func}

abbrev pub Infix : Text → Text → Type 0
Infix t s = (p : Text) × (q : Text) × (s ≡ p ++ (t ++ q))

contains_of_prefix : (s t : Text) → has_prefix s t ≡ true → contains s t ≡ true
unfolding contains
contains_of_prefix [] t h = h
contains_of_prefix (c ∷ s) t h = ground arith

contains-append : (p t q : Text) → contains (p ++ (t ++ q)) t ≡ true
unfolding contains
contains-append [] t q = contains_of_prefix (t ++ q) t (has_prefix-append t q)
contains-append (c ∷ p) t q = ground (arith, contains-append p t q)

pub contains_of_Infix : (t s : Text) → Infix t s → contains s t ≡ true
contains_of_Infix t s (p, q, e) = subst (λ x. contains x t ≡ true) (sym e) (contains-append p t q)

prefix-Infix : (s t : Text) → has_prefix s t ≡ true → Infix t s
prefix-Infix s t h = ([], drop_prefix s t, sym (append-drop_prefix s t h))

pub Infix_of_contains : (t s : Text) → contains s t ≡ true → Infix t s
unfolding contains
Infix_of_contains t [] h = prefix-Infix [] t h
Infix_of_contains t (c ∷ s) h = elim (Bool-cases (has_prefix (c ∷ s) t)) [
  | inl e ↦ prefix-Infix (c ∷ s) t e
  | inr e ↦ let (p, q, f) = Infix_of_contains t s (ground arith) in (c ∷ p, q, ap (λ x. c ∷ x) f)
]

pub Infix-trans : (r s t : Text) → Infix r s → Infix s t → Infix r t
Infix-trans r s t (p, q, e) (p', q', f) =
    (p' ++ p, q ++ q', f ∙ (ap (λ x. p' ++ (x ++ q')) e ∙ simp append_assoc))

module _ {κ} (P : ℕ → Type κ) where
  All-append : (s t : Text) → All P s → All P t → All P (s ++ t)
  All-append [] t h k = k
  All-append (c ∷ s) t h k = (h.0, All-append s t h.1 k)

  All-append_left : (s t : Text) → All P (s ++ t) → All P s
  All-append_left [] t h = tt
  All-append_left (c ∷ s) t h = (h.0, All-append_left s t h.1)

  All-append_right : (s t : Text) → All P (s ++ t) → All P t
  All-append_right [] t h = h
  All-append_right (c ∷ s) t h = All-append_right s t h.1

  pub All-Infix : (t s : Text) → Infix t s → All P s → All P t
  All-Infix t s (p, q, e) h = All-append_left t q (All-append_right p (t ++ q) (subst (All P) e h))

  All-reverse : (s : Text) → All P s → All P (reverse s)
  All-reverse [] h = tt
  All-reverse (c ∷ s) h =
      subst (All P) (sym (reverse-cons c s))
        (All-append (reverse s) (c ∷ []) (All-reverse s h.1) (h.0, tt))

  All-trim_left : (s : Text) → All P s → All P (trim_left s)
  unfolding trim_left
  All-trim_left [] h = tt
  All-trim_left (c ∷ s) h = elim (Bool-cases (is_space c)) [
    | inl e ↦ rw (e, trim_left) (All-trim_left s h.1)
    | inr e ↦ rw (e, trim_left) h
  ]

  pub All-trim_space : (s : Text) → All P s → All P (trim_space s)
  unfolding trim_space
  All-trim_space s h =
      All-reverse (trim_left (reverse (trim_left s)))
        (All-trim_left (reverse (trim_left s)) (All-reverse (trim_left s) (All-trim_left s h)))

-- A text without capitals.
abbrev pub IsLower : Text → Type 0
IsLower = All (λ c. lower c ≡ c)

pub to_lower-IsLower : (s : Text) → IsLower (to_lower s)
unfolding to_lower
to_lower-IsLower [] = tt
to_lower-IsLower (c ∷ s) = (lower_idem c, to_lower-IsLower s)

pub to_lower_fixed : (s : Text) → IsLower s → to_lower s ≡ s
unfolding to_lower
to_lower_fixed [] h = refl
to_lower_fixed (c ∷ s) h = cc (h.0, to_lower_fixed s h.1)

pub if-Elem :
    {A : Type 0}
    → (t : A) (b : Bool) (xs ys : List A) → Elem t (if b then xs else ys)
    → Elem t xs ⊎ Elem t ys
if-Elem t true xs ys m = inl m
if-Elem t false xs ys m = inr m

longer-append : (w : Text) (c : ℕ) (s : Text) → reverse (c ∷ w) ++ s ≡ reverse w ++ c ∷ s
longer-append w c s = rw (reverse-cons, append_assoc) refl

Infix-after : (w : Text) (c : ℕ) (s : Text) → Infix s (reverse w ++ c ∷ s)
Infix-after w c s = (reverse w ++ c ∷ [], [], simp (append_assoc, append-nil))

-- Every piece that is read is a part of the text.
pieces_after-Infix :
    (sep : ℕ → Bool) (t w s : Text) → Elem t (pieces_after sep w s) → Infix t (reverse w ++ s)
unfolding pieces_after
pieces_after-Infix sep t [] [] m = absurd m
pieces_after-Infix sep t (d ∷ w) [] (inl e) = ([], [], ap (λ x. x ++ []) e)
pieces_after-Infix sep t (d ∷ w) [] (inr m) = absurd m
pieces_after-Infix sep t w (c ∷ s) m =
    let longer = pieces_after sep (c ∷ w) s in
    let next = pieces_after sep [] s in
    let ended = if is_empty w then next else reverse w ∷ next in
    let whole = Infix-after w c s in
    let in_next = λ (n : Elem t next).
      Infix-trans t s (reverse w ++ c ∷ s) (pieces_after-Infix sep t [] s n) whole in
    elim (if-Elem t (sep c) ended longer m) [
      | inr n ↦ subst (Infix t) (longer-append w c s) (pieces_after-Infix sep t (c ∷ w) s n)
      | inl n ↦ elim (if-Elem t (is_empty w) next (reverse w ∷ next) n) [
        | inl o ↦ in_next o
        | inr (inl e) ↦ ([], c ∷ s, ap (λ x. x ++ c ∷ s) e)
        | inr (inr o) ↦ in_next o
      ]
    ]

pub fields_func-Infix : (sep : ℕ → Bool) (t s : Text) → Elem t (fields_func sep s) → Infix t s
unfolding fields_func
fields_func-Infix sep t s = pieces_after-Infix sep t [] s

is_empty-append : (s : Text) (c : ℕ) → is_empty (s ++ c ∷ []) ≡ false
is_empty-append [] c = refl
is_empty-append (d ∷ s) c = refl

is_empty-reverse : (s : Text) → is_empty s ≡ false → is_empty (reverse s) ≡ false
is_empty-reverse [] h = cc
is_empty-reverse (c ∷ s) h = rw reverse-cons (is_empty-append (reverse s) c)

is_empty-trim_left :
    (s : Text) (c : ℕ) → is_space c ≡ false → is_empty (trim_left (s ++ c ∷ [])) ≡ false
unfolding trim_left
is_empty-trim_left [] c h = rw (h, trim_left) refl
is_empty-trim_left (d ∷ s) c h = elim (Bool-cases (is_space d)) [
  | inl e ↦ rw (e, trim_left) (is_empty-trim_left s c h)
  | inr e ↦ rw (e, trim_left) refl
]

-- A text that begins with no white space is not blank.
pub is_empty-trim_space :
    (c : ℕ) (s : Text) → is_space c ≡ false → is_empty (trim_space (c ∷ s)) ≡ false
unfolding trim_space trim_left
is_empty-trim_space c s h =
    is_empty-reverse (trim_left (reverse (trim_left (c ∷ s))))
      (rw (h, reverse-cons) (is_empty-trim_left (reverse s) c h))
