-- ===== src/Model/Samples.antt =====
-- A request and a state of a session for the tests, in thousandths.
use g_lm.Prelude.{ℕ, false, none, []}
use g_lm.Prelude.Int.{pos}
use g_lm.Model.Chat.{ChatCompletionRequest}
use g_lm.Model.Session.{CognitiveState}

abbrev pub blank_request : ChatCompletionRequest ℕ
blank_request = record {
  model = [];
  session_id = [];
  memory_anchor_keys = [];
  reasoning = none;
  symbolic_overlay = none;
  response_style = none;
  documents = [];
  document_flow = none;
  messages = [];
  tools = [];
  tool_choice = none;
  temperature = none;
  max_tokens = none;
  stream = false;
}

abbrev pub blank_session : CognitiveState ℕ
blank_session = record {
  session_id = [];
  task_mode = [];
  topic = [];
  topic_keywords = [];
  sentiment = [];
  sentiment_instant = 0;
  sentiment_carryover = 0;
  valence = 0;
  arousal = 0;
  mood = 0;
  mood_slope = 0;
  emotional_energy = 0;
  mood_shift = 0;
  topic_drift = 0;
  pacing = [];
  micro_switches = [];
  recency_seconds = 0;
  interaction_count = pos 1;
  tone_compensation = record {
    target_tone = [];
    warmth = 0;
    directness = 0;
    empathy = 0;
    stability = 0;
    intensity = 0;
  };
  updated_at = 0;
  decay_lambda_per_hour = 0;
}
