-- ===== src/Metareasoning/Signals.antt =====
-- internal/metareasoning/evaluator.go: the signs of risk of a response.
use g_lm.Prelude.{
  ℕ, suc, Bool, false, ◌&&◌, ◌||◌, not, Option, none, some, List, [], ◌∷◌, ◌++◌, any, ltb, length,
  if◌then◌else◌,
}
use g_lm.Prelude.Texts.{
  Text, lit, equal_fold, is_empty, to_lower, trim_space, contains, has_prefix, fields,
}
use g_lm.Prelude.Floats.{Float64, clamp01}
use g_lm.Model.Chat.{ChatCompletionRequest, ChatCompletionResponse, Message}
use g_lm.Model.Session.{CognitiveState}
use g_lm.Metareasoning.Patterns.{matches_citation, matches_overassertive}

-- internal/reasoning/executor.go
pub record ContradictionReport : Type 0 where
  pub detected : Bool
  pub pairs : List Text
  pub summary : Text

-- Of the trace of an execution, the part that the evaluators read.
pub record Trace : Type 0 where
  pub contradictions : ContradictionReport

pub record Signal (F : Type 0) : Type 0 where
  pub test : Bool
  pub weight : F
  pub flag : Text

-- The two variables that Evaluate adds to.
pub record Score (F : Type 0) : Type 0 where
  pub risk : F
  pub flags : List Text

abbrev pub first_content : ChatCompletionResponse → Text
unfolding trim_space
first_content resp = elim resp.choices [ [] ↦ [] | c ∷ cs ↦ trim_space c.message.content ]

abbrev pub hedge_terms : List Text
hedge_terms =
    lit "maybe"
    ∷ lit "might"
    ∷ lit "possibly"
    ∷ lit "unclear"
    ∷ lit "not sure"
    ∷ lit "i think"
    ∷ lit "perhaps"
    ∷ lit "likely"
    ∷ []

unfoldable pub count_hits : Text → List Text → ℕ
unfolding contains
count_hits t [] = 0
count_hits t (term ∷ terms) =
    let rest = count_hits t terms in if contains t term then suc rest else rest

unfoldable pub asks_extraction : List Message → Bool
unfolding any equal_fold to_lower contains
asks_extraction = any (λ m.
    equal_fold m.role (lit "user")
    && (contains (to_lower m.content) (lit "extract")
        || contains (to_lower m.content) (lit "classify")
        || contains (to_lower m.content) (lit "return json")))

unfoldable pub looks_structured : Text → Bool
unfolding trim_space to_lower has_prefix contains
looks_structured s =
    let t = trim_space (to_lower s) in
    has_prefix t (lit "{")
    || has_prefix t (lit "[")
    || contains t (10 ∷ lit "-")
    || contains t (10 ∷ lit "1.")

module _ (fl : Float64) where
  open fl use {F, lt, le, milli, of_int, add, sub, mul, div, max, round3}

  unfoldable pub hedging_ratio : Text → F
  unfolding to_lower trim_space fields count_hits
  hedging_ratio s =
      let t = to_lower (trim_space s) in
      if is_empty t || is_empty (fields t)
      then milli 0
      else div (of_int (count_hits t hedge_terms)) (of_int (length (fields t)))

  unfoldable pub is_extraction_task : ChatCompletionRequest F → Bool
  unfolding to_lower trim_space contains asks_extraction
  is_extraction_task req =
      elim req.reasoning [
        | none ↦ false
        | some r ↦
            contains (to_lower (trim_space r.mode)) (lit "extract")
            || contains (to_lower (trim_space r.mode)) (lit "classif")
      ]
      || asks_extraction req.messages

  -- A sign of risk: where its test holds, its weight is added and its flag appended.
  unfoldable pub raise : Signal F → Score F → Score F
  raise x s =
      if x.test then record s { risk = add s.risk x.weight; flags = s.flags ++ x.flag ∷ [] } else s

  unfoldable pub raise_all : List (Signal F) → Score F → Score F
  unfolding raise
  raise_all [] s = s
  raise_all (x ∷ xs) s = raise_all xs (raise x s)

  unfoldable pub output_signals : Text → List (Signal F)
  unfolding trim_space fields
  output_signals content =
      let words = length (fields content) in
      record { test = is_empty (trim_space content); weight = milli 650; flag = lit "empty_output" }
      ∷ record {
        test = ltb 0 words && ltb words 24;
        weight = milli 200;
        flag = lit "very_short_output";
      }
      ∷ []

  -- The output alone: its length and its hedging.
  unfoldable pub score_output : Text → F → Score F
  unfolding raise_all output_signals fields
  score_output content h =
      let s2 = raise_all (output_signals content) (record { risk = milli 0; flags = [] }) in
      let risk = if ltb (length (fields content)) 8 then add s2.risk (milli 200) else s2.risk in
      record {
        risk = add risk (clamp01 fl (mul h (milli 450)));
        flags = if le (milli 120) h then s2.flags ++ lit "high_hedging" ∷ [] else s2.flags;
      }

  -- The output against the request, the trace and the session.
  unfoldable pub context_signals :
      ChatCompletionRequest F → Text → F → Option Trace → CognitiveState F → List (Signal F)
  unfolding is_extraction_task looks_structured to_lower matches_citation matches_overassertive
  context_signals req content h trace st =
      record {
        test = is_extraction_task req && not (looks_structured content);
        weight = milli 200;
        flag = lit "task_output_mismatch";
      }
      ∷ record {
        test = elim trace [ none ↦ false | some t ↦ t.contradictions.detected ];
        weight = milli 250;
        flag = lit "branch_contradictions";
      }
      ∷ record {
        test = le (milli 500) st.topic_drift;
        weight = milli 120;
        flag = lit "high_topic_drift";
      }
      ∷ record {
        test = le (milli 200) st.mood_shift;
        weight = milli 100;
        flag = lit "high_mood_shift";
      }
      ∷ record {
        test = matches_citation (to_lower content);
        weight = milli 150;
        flag = lit "citation_risk";
      }
      ∷ record {
        test = matches_overassertive (to_lower content) && lt h (milli 30);
        weight = milli 100;
        flag = lit "overassertive_claim";
      }
      ∷ []
