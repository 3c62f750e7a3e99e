-- ===== src/Metareasoning/Flags.antt =====
-- internal/metareasoning/evaluator.go: dedupe, and what an evaluation reports.
use g_lm.Prelude.{
  ◌≡◌, ◌⊎◌, refl, inl, inr, true, false, some, List, [], ◌∷◌, arith, Elem, All, any,
  Elem-append_left, Elem-append_right, Bool-cases,
}
use g_lm.Prelude.Texts.{Text, lit, text_eq, text_eq_iff, text_eq_comm, is_empty, trim_space}
use g_lm.Prelude.Floats.{Float64, clamp01}
use g_lm.Prelude.Sorting.{Elem-sort_slice_of, text_less}
use g_lm.Model.Chat.{ChatCompletionRequest, ChatCompletionResponse}
use g_lm.Model.Session.{CognitiveState}
use g_lm.Metareasoning.{Evaluator, wanted_profile, resolve_profile, evaluate}
use g_lm.Metareasoning.Signals.{
  Trace, Score, first_content, hedging_ratio, score_output, Signal, context_signals, output_signals,
  raise, raise_all,
}
use g_lm.Metareasoning.Decisions.{profiles, decisions, known_profile-Elem, decide-Elem}
use g_lm.Metareasoning.Patterns.{dedupe, dedupe_after, sort_strings}

abbrev pub IsDistinct : List Text → Type 0
IsDistinct [] = Unit
IsDistinct (s ∷ ss) = (any (text_eq s) ss ≡ false) × IsDistinct ss

any-not_seen :
    (s : Text) (seen ss : List Text)
    → All (λ t. any (text_eq t) (s ∷ seen) ≡ false) ss
    → (any (text_eq s) ss ≡ false) × All (λ t. any (text_eq t) seen ≡ false) ss
unfolding any
any-not_seen s seen [] h = (refl, tt)
any-not_seen s seen (t ∷ ss) (h, hs) =
    let (a, b) = any-not_seen s seen ss hs in (ground (arith, text_eq_comm s t), (ground arith, b))

dedupe_after-unseen :
    (seen ss : List Text) → All (λ t. any (text_eq t) seen ≡ false) (dedupe_after seen ss)
unfolding dedupe_after
dedupe_after-unseen seen [] = tt
dedupe_after-unseen seen (s ∷ ss) = elim (Bool-cases (any (text_eq s) seen)) [
  | inl e ↦ rw (e, dedupe_after) (dedupe_after-unseen seen ss)
  | inr e ↦ rw (e, dedupe_after) (e, (any-not_seen s seen _ (dedupe_after-unseen (s ∷ seen) ss)).1)
]

dedupe_after-IsDistinct : (seen ss : List Text) → IsDistinct (dedupe_after seen ss)
unfolding dedupe_after
dedupe_after-IsDistinct seen [] = tt
dedupe_after-IsDistinct seen (s ∷ ss) = elim (Bool-cases (any (text_eq s) seen)) [
  | inl e ↦ rw (e, dedupe_after) (dedupe_after-IsDistinct seen ss)
  | inr e ↦
      rw (e, dedupe_after)
        (
          (any-not_seen s seen _ (dedupe_after-unseen (s ∷ seen) ss)).0,
          dedupe_after-IsDistinct (s ∷ seen) ss,
        )
]

Elem-dedupe_after : (a : Text) (seen ss : List Text) → Elem a (dedupe_after seen ss) → Elem a ss
unfolding dedupe_after
Elem-dedupe_after a seen [] h = h
Elem-dedupe_after a seen (s ∷ ss) h =
    ground (arith, Elem-dedupe_after a seen ss, Elem-dedupe_after a (s ∷ seen) ss)

Elem-dedupe_after_of :
    (a : Text) (seen ss : List Text)
    → Elem a ss
    → (any (text_eq a) seen ≡ true) ⊎ Elem a (dedupe_after seen ss)
unfolding dedupe_after any
Elem-dedupe_after_of a seen [] h = absurd h
Elem-dedupe_after_of a seen (s ∷ ss) h =
    ground
      (arith, text_eq_iff a s, Elem-dedupe_after_of a seen ss, Elem-dedupe_after_of a (s ∷ seen) ss)

-- Removing repetitions keeps exactly the strings that were there, each once.
pub dedupe_lem :
    (ss : List Text)
    → IsDistinct (dedupe ss)
      × ((a : Text) → Elem a (dedupe ss) → Elem a ss)
      × ((a : Text) → Elem a ss → Elem a (dedupe ss))
unfolding dedupe
dedupe_lem ss = (
  dedupe_after-IsDistinct [] ss,
  λ a. Elem-dedupe_after a [] ss,
  λ a m. elim (Elem-dedupe_after_of a [] ss m) [ inl e ↦ absurd (unfold any in cc e) | inr n ↦ n ],
)

module _ (fl : Float64) where
  open fl use {F, le, sub, milli}

  Elem-raise :
      (a : Text) (x : Signal F) (s : Score F) → Elem a s.flags → Elem a (raise fl x s).flags
  unfolding raise
  Elem-raise a x s m = elim (Bool-cases x.test) [
    | inl e ↦ rw (e, raise) (Elem-append_left a s.flags (x.flag ∷ []) m)
    | inr e ↦ rw (e, raise) m
  ]

  Elem-raise_all :
      (a : Text) (xs : List (Signal F)) (s : Score F)
      → Elem a s.flags
      → Elem a (raise_all fl xs s).flags
  unfolding raise_all
  Elem-raise_all a [] s m = m
  Elem-raise_all a (x ∷ xs) s m = Elem-raise_all a xs (raise fl x s) (Elem-raise a x s m)

  raise_all_new :
      (x : Signal F) (xs : List (Signal F)) (s : Score F)
      → Elem x xs
      → x.test ≡ true
      → Elem x.flag (raise_all fl xs s).flags
  unfolding raise_all
  raise_all_new x [] s m e = absurd m
  raise_all_new x (y ∷ ys) s (inl p) e =
      Elem-raise_all x.flag ys (raise fl y s)
        (rw (p, e, raise) (Elem-append_right x.flag s.flags (x.flag ∷ []) (inl refl)))
  raise_all_new x (y ∷ ys) s (inr m) e = raise_all_new x ys (raise fl y s) m e

  score_output_empty :
      (content : Text) (h : F)
      → is_empty (trim_space content) ≡ true
      → Elem (lit "empty_output") (score_output fl content h).flags
  unfolding score_output output_signals
  score_output_empty content h e =
      let m =
        raise_all_new _ (output_signals fl content) (record { risk = milli 0; flags = [] })
          (inl refl) e in
      elim (Bool-cases (le (milli 120) h)) [
        | inl f ↦ rw (f, score_output) (Elem-append_left (lit "empty_output") _ _ m)
        | inr f ↦ rw (f, score_output) m
      ]

  resolve_profile-Elem :
      (e : Evaluator F) (req : ChatCompletionRequest F) → Elem (resolve_profile fl e req) profiles
  unfolding resolve_profile
  resolve_profile-Elem e req = known_profile-Elem (wanted_profile fl e req)

  -- An evaluation reports one of the three profiles and one of the three decisions, flags without
  -- repetition, and among them the flag of a blank output and that of contradicting branches.
  pub evaluate_lem :
      (e : Evaluator F) (req : ChatCompletionRequest F) (resp : ChatCompletionResponse) (t : Trace)
      (st : CognitiveState F)
      → let r = evaluate fl e req resp (some t) st in
        Elem r.profile profiles
        × Elem r.decision decisions
        × IsDistinct r.flags
        × (is_empty (trim_space (first_content resp)) ≡ true → Elem (lit "empty_output") r.flags)
        × (t.contradictions.detected ≡ true → Elem (lit "branch_contradictions") r.flags)
  unfolding evaluate sort_strings context_signals
  evaluate_lem e req resp t st =
      let content = first_content resp in
      let h = hedging_ratio fl content in
      let out = score_output fl content h in
      let signals = context_signals fl req content h (some t) st in
      let s = raise_all fl signals out in
      let risk = clamp01 fl s.risk in
      let confidence = clamp01 fl (sub (milli 1000) risk) in
      let (distinct, _, keeps) = dedupe_lem (sort_strings s.flags) in
      let flagged : (a : Text) → Elem a s.flags → Elem a (dedupe (sort_strings s.flags)) =
        λ a m. keeps a (Elem-sort_slice_of text_less a s.flags m) in
      (
        resolve_profile-Elem e req,
        decide-Elem fl (resolve_profile fl e req) confidence risk e.cfg.accept_threshold
            e.cfg.strict_threshold,
        distinct,
        λ b. flagged _ (Elem-raise_all _ signals out (score_output_empty content h b)),
        λ b. flagged _ (raise_all_new _ signals out (inr (inl refl)) b),
      )
