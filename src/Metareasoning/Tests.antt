-- ===== src/Metareasoning/Tests.antt =====
-- The evaluators at concrete inputs, in thousandths.
use g_lm.Prelude.{ℕ, ◌≡◌, ◌≤◌, refl, true, false, none, some, [], ◌∷◌, Elem}
use g_lm.Prelude.Int.{pos}
use g_lm.Prelude.Texts.{lit, text_eq}
use g_lm.Prelude.Floats.{thousandths, thousandths-IsOrdered}
use g_lm.Model.Chat.{ChatCompletionRequest, ChatCompletionResponse}
use g_lm.Model.Session.{CognitiveState}
use g_lm.Metareasoning.{Evaluator, decide, decide_with, evaluate}
use g_lm.Metareasoning.Signals.{Trace}
use g_lm.Metareasoning.Chain.{evaluate_chain}
use g_lm.Metareasoning.Chains.{evaluate_chain_lem}
use g_lm.Metareasoning.Decisions.{decide_mono}
use g_lm.Metareasoning.Flags.{evaluate_lem}
use g_lm.Metareasoning.Patterns.{matches_citation, opens_citation, is_digit, closes}

matches_citation_test : matches_citation (lit "as in [12], see") ≡ true
unfolding matches_citation opens_citation is_digit closes
matches_citation_test = refl

matches_citation_long_test : matches_citation (lit "as in [1234]") ≡ false
unfolding matches_citation opens_citation is_digit closes
matches_citation_long_test = refl

abbrev question : ChatCompletionRequest ℕ
question = record {
  model = lit "auto";
  session_id = lit "s1";
  memory_anchor_keys = [];
  reasoning = none;
  symbolic_overlay = none;
  response_style = none;
  documents = [];
  document_flow = none;
  messages = [];
  tools = [];
  tool_choice = none;
  temperature = none;
  max_tokens = none;
  stream = false;
}

abbrev no_answer : ChatCompletionResponse
no_answer = record {
  id = lit "c1";
  object = lit "chat.completion";
  created = pos 0;
  model = lit "m1";
  choices = [];
  usage = none;
}

abbrev session : CognitiveState ℕ
session = record {
  session_id = lit "s1";
  task_mode = [];
  topic = [];
  topic_keywords = [];
  sentiment = [];
  sentiment_instant = 0;
  sentiment_carryover = 0;
  valence = 0;
  arousal = 0;
  mood = 0;
  mood_slope = 0;
  emotional_energy = 0;
  mood_shift = 0;
  topic_drift = 0;
  pacing = [];
  micro_switches = [];
  recency_seconds = 0;
  interaction_count = pos 1;
  tone_compensation = record {
    target_tone = [];
    warmth = 0;
    directness = 0;
    empathy = 0;
    stability = 0;
    intensity = 0;
  };
  updated_at = 0;
  decay_lambda_per_hour = 0;
}

abbrev evaluator : Evaluator ℕ
evaluator = record {
  cfg = record {
    enabled = true;
    default_profile = lit "strict";
    strict_threshold = 820;
    accept_threshold = 720;
  };
}

abbrev torn : Trace
torn = record { contradictions = record { detected = true; pairs = []; summary = [] } }

evaluate_lem_example :
    Elem
      (lit "branch_contradictions")
      (evaluate thousandths evaluator question no_answer (some torn) session).flags
evaluate_lem_example = (evaluate_lem thousandths evaluator question no_answer torn session).4 refl

evaluate_chain_lem_example :
    (evaluate_chain thousandths evaluator question no_answer
      (some torn)
      session
      (lit "risk" ∷ lit "policy" ∷ [])
      (pos 1)).depth
    ≤ 1
evaluate_chain_lem_example =
    (evaluate_chain_lem thousandths evaluator question no_answer (some torn) session (lit "risk")
      (lit "policy" ∷ []) 0).0

decide_mono_example : decide thousandths (lit "default") 850 150 720 820 ≡ lit "accept"
decide_mono_example =
    (decide_mono thousandths thousandths-IsOrdered 850 150 720 820 tt tt).0
      (unfold decide decide_with text_eq in refl)
