-- ===== src/Overlay/Quotes.antt =====
-- internal/symbolicoverlay: the constraints of extract.go under the compliance of compliance.go.
use g_lm.Prelude.{
  ℕ, suc, ◌≡◌, ◌⊎◌, refl, ap, sym, subst, inl, inr, true, false, not, ◌||◌, none, some, List, [],
  ◌∷◌, ◌++◌, map, any, keep, length, take, leb, ltb, Elem, Elem-keep, Elem-take, Elem-map,
  Elem-append, arith, Bool-cases,
}
use mathlib.Core.List.{append-nil}
use g_lm.Prelude.Texts.{
  Text, lit, text_eq, text_eq_iff, is_empty, to_lower, trim_space, is_space, contains,
}
use g_lm.Prelude.Maps.{Map, lookup, insert, Elem-insert}
use g_lm.Prelude.Tokens.{fields_func}
use g_lm.Prelude.Sorting.{sort_slice, Elem-sort_slice}
use g_lm.Prelude.Ranking.{count_or_zero, count_tokens, rank}
use g_lm.Prelude.Infix.{
  Infix, IsLower, contains_of_Infix, if-Elem, Infix_of_contains, Infix-trans, All-Infix,
  All-trim_space, to_lower-IsLower, to_lower_fixed, fields_func-Infix, is_empty-trim_space,
}
use g_lm.Metareasoning.Patterns.{is_digit}
use g_lm.Overlay.Artifact.{Constraint}
use g_lm.Overlay.Words.{
  starts_word, is_word_byte, word_of, tokenize, is_significant, top_entities, top_keywords,
  split_sentences,
}
use g_lm.Overlay.Extract.{
  distinct_by, flat, constraint_of, constraint_less, constraint_key, extract_constraints,
  all_constraints, extract_constraint_set,
}
use g_lm.Overlay.Compliance.{contains_any, constraint_warning}

-- A word: a part of the text that begins with a letter or a digit.
abbrev Word : Text → Text → Type 0
Word t s = Infix t s × (is_empty (trim_space t) ≡ false)

not-is_space : (c : ℕ) → starts_word c ≡ true → is_space c ≡ false
unfolding starts_word is_digit is_space
not-is_space c h = ground arith

word_of-Infix : (s : Text) → Infix (word_of s) s
unfolding word_of
word_of-Infix [] = ([], [], refl)
word_of-Infix (c ∷ s) = elim (Bool-cases (starts_word c)) [
  | inl e ↦ rw (e, word_of) ([], [], simp append-nil)
  | inr e ↦ rw (e, word_of) (let (p, q, f) = word_of-Infix s in (c ∷ p, q, ap (λ x. c ∷ x) f))
]

abbrev Filled : Text → Type 0
Filled t = leb 2 (length t) ≡ true → is_empty (trim_space t) ≡ false

word_of-Filled : (s : Text) → Filled (word_of s)
unfolding word_of
word_of-Filled [] = λ h. absurd (cc h)
word_of-Filled (c ∷ s) = elim (Bool-cases (starts_word c)) [
  | inl e ↦ rw (e, word_of) (λ h. is_empty-trim_space c s (not-is_space c e))
  | inr e ↦ rw (e, word_of) (word_of-Filled s)
]

tokenize-Word : (t s : Text) → Elem t (tokenize s) → Word t (to_lower s)
unfolding tokenize
tokenize-Word t s m =
    let long = λ (t : Text). leb 2 (length t) in
    let runs = fields_func (λ c. not (is_word_byte c)) (to_lower s) in
    let (n, h) = Elem-keep long t (map word_of runs) m in
    let (run, o, e) = Elem-map word_of t runs n in
    let here = fields_func-Infix (λ c. not (is_word_byte c)) run (to_lower s) o in
    subst (λ x. Word x (to_lower s)) e
      (
        Infix-trans (word_of run) run (to_lower s) (word_of-Infix run) here,
        word_of-Filled run (subst (λ x. long x ≡ true) (sym e) h),
      )

-- The keys of the counts are the tokens.
count_tokens-key :
    (k : Text) (n : ℕ) (ts : List Text) (m : Map ℕ)
    → Elem (k, n) (count_tokens ts m)
    → Elem k ts ⊎ ((v : ℕ) × Elem (k, v) m)
unfolding count_tokens
count_tokens-key k n [] m h = inr (n, h)
count_tokens-key k n (t ∷ ts) m h =
    elim (count_tokens-key k n ts (insert t (suc (count_or_zero (lookup t m))) m) h) [
      | inl o ↦ inl (inr o)
      | inr (v, o) ↦ elim (Elem-insert t k (suc (count_or_zero (lookup t m))) v m o) [
        | inl (e, f) ↦ inl (inl (sym e))
        | inr x ↦ inr (v, x)
      ]
    ]

top_keywords-Word : (k s : Text) (n : ℕ) → Elem k (top_keywords s n) → Word k (to_lower s)
unfolding top_keywords top_entities rank
top_keywords-Word k s n m =
    let tokens = keep is_significant (tokenize s) in
    let counts = count_tokens tokens [] in
    let (entry, o, e) =
      Elem-map (λ (e : Text × ℕ). e.0) k (rank counts) (Elem-take n k (top_entities counts) m) in
    let here = Elem-sort_slice _ entry counts o in
    elim (count_tokens-key entry.0 entry.1 tokens [] here) [
      | inr (v, x) ↦ absurd x
      | inl t ↦
          subst (λ x. Word x (to_lower s)) e
            (tokenize-Word entry.0 s (Elem-keep is_significant entry.0 (tokenize s) t).0)
    ]

-- A text that has one of its words in every quotation of it.
contains_any-Word :
    (text line : Text) (k : Text) (ks : List Text)
    → IsLower line
    → Word k line
    → contains text line ≡ true
    → contains_any text (k ∷ ks) ≡ true
unfolding contains_any any
contains_any-Word text line k ks low (here, filled) h =
    let fixed = to_lower_fixed k (All-Infix _ k line here low) in
    let found =
      contains_of_Infix k text (Infix-trans k line text here (Infix_of_contains line text h)) in
    rw (filled, fixed, found) refl

-- What the extraction makes of a line without capitals.
abbrev IsExtracted : Constraint → Type 0
IsExtracted c = IsLower c.text × (c.keywords ≡ top_keywords c.text 4)

distinct_by-Elem :
    {A : Type 0}
    → (key : A → Text) (a : A) (seen : List Text) (xs : List A) → Elem a (distinct_by key seen xs)
    → Elem a xs
unfolding distinct_by
distinct_by-Elem key a seen [] m = m
distinct_by-Elem key a seen (x ∷ xs) m =
    let kept = x ∷ distinct_by key (key x ∷ seen) xs in
    let skipped = distinct_by key seen xs in
    elim (if-Elem a (any (text_eq (key x)) seen) skipped kept m) [
      | inl n ↦ inr (distinct_by-Elem key a seen xs n)
      | inr (inl e) ↦ inl e
      | inr (inr n) ↦ inr (distinct_by-Elem key a (key x ∷ seen) xs n)
    ]

flat-Elem :
    {A : Type 0}
    → (f : Text → List A) (a : A) (ss : List Text) → Elem a (flat f ss)
    → (s : Text) × Elem a (f s)
flat-Elem f a [] m = absurd m
flat-Elem f a (s ∷ ss) m = elim (Elem-append a (f s) (flat f ss) m) [
  | inl n ↦ (s, n)
  | inr n ↦ flat-Elem f a ss n
]

constraint_of-IsExtracted : (p : Text) → IsExtracted (constraint_of (trim_space (to_lower p)))
unfolding constraint_of
constraint_of-IsExtracted p = (All-trim_space _ (to_lower p) (to_lower-IsLower p), refl)

extract_constraints-IsExtracted :
    (c : Constraint) (s : Text) → Elem c (extract_constraints s) → IsExtracted c
unfolding extract_constraints
extract_constraints-IsExtracted c s m =
    let line_of = λ (p : Text). trim_space (to_lower p) in
    let filled = λ (l : Text). not (is_empty l) in
    let lines = keep filled (map line_of (split_sentences s)) in
    let (n, h) =
      Elem-keep (λ (c : Constraint). not (is_empty c.kind)) c (map constraint_of lines) m in
    let (line, o, e) = Elem-map constraint_of c lines n in
    let (here, k) = Elem-keep filled line (map line_of (split_sentences s)) o in
    let (p, q, f) = Elem-map line_of line (split_sentences s) here in
    subst IsExtracted e (subst (λ l. IsExtracted (constraint_of l)) f (constraint_of-IsExtracted p))

all_constraints-IsExtracted :
    (c : Constraint) (sources : List Text) → Elem c (all_constraints sources) → IsExtracted c
unfolding all_constraints
all_constraints-IsExtracted c sources m =
    let found = flat extract_constraints sources in
    let sorted = distinct_by-Elem constraint_key c [] (sort_slice constraint_less found) m in
    let (s, n) =
      flat-Elem extract_constraints c sources (Elem-sort_slice constraint_less c found sorted) in
    extract_constraints-IsExtracted c s n

keywords_met :
    (text line : Text) (ks : List Text)
    → IsLower line
    → ks ≡ top_keywords line 4
    → contains text line ≡ true
    → is_empty ks || contains_any text ks ≡ true
keywords_met text line [] low e h = refl
keywords_met text line (k ∷ ks) low e h =
    let here = top_keywords-Word k line 4 (subst (Elem k) e (inl refl)) in
    contains_any-Word text line k ks low (subst (Word k) (to_lower_fixed line low) here) h

extract_constraint_set-Elem :
    (c : Constraint) (sources : List Text) (max : ℕ)
    → Elem c (extract_constraint_set sources max).0
    → Elem c (all_constraints sources)
unfolding extract_constraint_set
extract_constraint_set-Elem c sources max = elim (Bool-cases (leb max 0)) [
  | inl e ↦ rw (e, extract_constraint_set) (λ m. absurd m)
  | inr e ↦ elim (Bool-cases (ltb max (length (all_constraints sources)))) [
    | inl f ↦ rw (e, f, extract_constraint_set) (Elem-take max c (all_constraints sources))
    | inr f ↦ rw (e, f, extract_constraint_set) (λ m. m)
  ]
]

abbrev required : Text
required = lit "required"

abbrev prohibited : Text
prohibited = lit "prohibited"

warning-required :
    (text : Text) (c : Constraint)
    → c.kind ≡ required
    → is_empty c.keywords || contains_any text c.keywords ≡ true
    → constraint_warning text c ≡ none
unfolding constraint_warning
warning-required text c e h = rw ((text_eq_iff c.kind required).1 e, h) refl

warning-prohibited :
    (text : Text) (c : Constraint)
    → c.kind ≡ prohibited
    → contains_any text c.keywords ≡ true
    → constraint_warning text c ≡ some (lit "prohibited_constraint_mentioned:" ++ take 60 c.text)
unfolding constraint_warning text_eq
warning-prohibited text c e h =
    let not_required = ap (λ k. text_eq k required) e in
    rw (not_required, (text_eq_iff c.kind prohibited).1 e, h) refl

-- What compliance says of a constraint that the sources gave, under a response that quotes it, but for
-- capitals: a required one is not missing, and a prohibited one with keywords is mentioned.
pub constraint_warning-quoted :
    (sources : List Text) (max : ℕ) (c : Constraint) (response : Text)
    → Elem c (extract_constraint_set sources max).0
    → contains (to_lower response) c.text ≡ true
    → (c.kind ≡ required → constraint_warning (to_lower response) c ≡ none)
      × (c.kind ≡ prohibited
          → is_empty c.keywords ≡ false
          → constraint_warning (to_lower response) c
            ≡ some (lit "prohibited_constraint_mentioned:" ++ take 60 c.text))
constraint_warning-quoted sources max c response m h =
    let here = extract_constraint_set-Elem c sources max m in
    let (low, e) = all_constraints-IsExtracted c sources here in
    let met = keywords_met (to_lower response) c.text c.keywords low e h in
    (
      λ k. warning-required (to_lower response) c k met,
      λ k filled. warning-prohibited (to_lower response) c k (ground (arith, met, filled)),
    )
