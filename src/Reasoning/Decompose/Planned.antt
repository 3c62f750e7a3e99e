-- ===== src/Reasoning/Decompose/Planned.antt =====
-- internal/reasoning/decompose.go: the subtasks that a plan may hold.
use g_lm.Prelude.{
  ℕ, suc, ◌≡◌, ◌≤◌, inl, inr, refl, subst, false, Option, List, [], ◌∷◌, ◌++◌, any, length, leb,
  All, length-append, arith, Bool-cases, Option-cases,
}
use g_lm.Prelude.Texts.{Text, text_eq, text_eq_comm, is_empty, trim_space}
use g_lm.Prelude.Results.{Result, ok, err}
use g_lm.Metareasoning.Flags.{IsDistinct}
use g_lm.Model.Chat.{Json}
use g_lm.Reasoning.Decompose.Planner.{
  add_unique, gather, subtasks_of, texts_or_none, decode_strings, clean_answer,
  parse_decompose_subtasks,
}

any-append :
    (t v : Text) (ts : List Text)
    → any (text_eq t) ts ≡ false
    → text_eq v t ≡ false
    → any (text_eq t) (ts ++ v ∷ []) ≡ false
unfolding any
any-append t v [] h e = ground (arith, text_eq_comm t v)
any-append t v (s ∷ ts) h e = ground (arith, any-append t v ts)

append-IsDistinct :
    (v : Text) (ts : List Text)
    → IsDistinct ts
    → any (text_eq v) ts ≡ false
    → IsDistinct (ts ++ v ∷ [])
unfolding any
append-IsDistinct v [] h e = (refl, tt)
append-IsDistinct v (t ∷ ts) h e =
    let differs : text_eq v t ≡ false = ground arith in
    let others : any (text_eq v) ts ≡ false = ground arith in
    (any-append t v ts h.0 differs, append-IsDistinct v ts h.1 others)

-- Subtasks that are not blank, each once, and at most so many.
pub record AreTasks (max : ℕ) (ts : List Text) : Type 0 where
  pub distinct : IsDistinct ts
  pub filled : All (λ t. is_empty t ≡ false) ts
  pub limit : length ts ≤ max

append-filled :
    (v : Text) (ts : List Text)
    → All (λ t. is_empty t ≡ false) ts
    → is_empty v ≡ false
    → All (λ t. is_empty t ≡ false) (ts ++ v ∷ [])
append-filled v [] h e = (e, tt)
append-filled v (t ∷ ts) h e = (h.0, append-filled v ts h.1 e)

add_unique-AreTasks :
    (max : ℕ) (out : List Text) (item : Text)
    → suc (length out) ≤ max
    → AreTasks max out
    → AreTasks max (add_unique out item)
unfolding add_unique
add_unique-AreTasks max out item n h =
    let v = trim_space item in
    elim (Bool-cases (is_empty v)) [
      | inl e ↦ rw (e, add_unique) h
      | inr e ↦ elim (Bool-cases (any (text_eq v) out)) [
        | inl f ↦ rw (e, f, add_unique) h
        | inr f ↦
            rw (e, f, add_unique)
              (record {
                distinct = append-IsDistinct v out h.distinct f;
                filled = append-filled v out h.filled e;
                limit = omega (arith, length-append out (v ∷ []));
              })
      ]
    ]

gather-AreTasks :
    (max : ℕ) (out ts : List Text)
    → suc (length out) ≤ max
    → AreTasks max out
    → AreTasks max (gather max out ts)
unfolding gather
gather-AreTasks max out [] n h = h
gather-AreTasks max out (t ∷ ts) n h =
    let next = add_unique-AreTasks max out t n h in
    elim (Bool-cases (leb max (length (add_unique out t)))) [
      | inl e ↦ rw (e, gather) next
      | inr e ↦ rw (e, gather) (gather-AreTasks max (add_unique out t) ts (ground arith) next)
    ]

no_tasks : (max : ℕ) → AreTasks max []
no_tasks max = record { distinct = tt; filled = tt; limit = omega arith }

subtasks_of-AreTasks : (max : ℕ) (j : Json) → 1 ≤ max → AreTasks max (subtasks_of max j)
unfolding subtasks_of
subtasks_of-AreTasks max j n =
    let listed = texts_or_none (decode_strings j) in
    elim (Bool-cases (is_empty (gather max [] listed))) [
      | inl e ↦ rw (e, subtasks_of) (gather-AreTasks max [] _ n (no_tasks max))
      | inr e ↦ rw (e, subtasks_of) (gather-AreTasks max [] listed n (no_tasks max))
    ]

abbrev Parsed : ℕ → Result Text (List Text) → Type 0
Parsed max (ok ts) = (is_empty ts ≡ false) × AreTasks max ts
Parsed max (err e) = Unit

parse-Parsed :
    (unmarshal : Text → Option Json) (raw : Text) (max : ℕ)
    → 1 ≤ max
    → Parsed max (parse_decompose_subtasks unmarshal raw max)
unfolding parse_decompose_subtasks
parse-Parsed unmarshal raw max n = elim (Bool-cases (is_empty (trim_space raw))) [
  | inl e ↦ rw (e, parse_decompose_subtasks) tt
  | inr e ↦ elim (Option-cases (unmarshal (clean_answer raw))) [
    | inl p ↦ rw (e, p, parse_decompose_subtasks) tt
    | inr (j, p) ↦ elim (Bool-cases (is_empty (subtasks_of max j))) [
      | inl f ↦ rw (e, p, f, parse_decompose_subtasks) tt
      | inr f ↦ rw (e, p, f, parse_decompose_subtasks) (f, subtasks_of-AreTasks max j n)
    ]
  ]
]

-- A planner's answer that is parsed gives at least one subtask and at most the number allowed, if
-- that is positive; none is blank, and each stands once.
pub parse_decompose_subtasks_lem :
    (unmarshal : Text → Option Json) (raw : Text) (max : ℕ) (ts : List Text)
    → 1 ≤ max
    → parse_decompose_subtasks unmarshal raw max ≡ ok ts
    → (is_empty ts ≡ false) × AreTasks max ts
parse_decompose_subtasks_lem unmarshal raw max ts n h =
    subst (Parsed max) h (parse-Parsed unmarshal raw max n)
