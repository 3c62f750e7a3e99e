-- ===== src/Model/Session.antt =====
-- internal/state/manager.go: the state of a session that the evaluators read.
use g_lm.Prelude.{List}
use g_lm.Prelude.Int.{ℤ}
use g_lm.Prelude.Texts.{Text}
use g_lm.Model.Records.{Time}

pub record ToneCompensation (F : Type 0) : Type 0 where
  pub target_tone : Text
  pub warmth : F
  pub directness : F
  pub empathy : F
  pub stability : F
  pub intensity : F

pub record CognitiveState (F : Type 0) : Type 0 where
  pub session_id : Text
  pub task_mode : Text
  pub topic : Text
  pub topic_keywords : List Text
  pub sentiment : Text
  pub sentiment_instant : F
  pub sentiment_carryover : F
  pub valence : F
  pub arousal : F
  pub mood : F
  pub mood_slope : F
  pub emotional_energy : F
  pub mood_shift : F
  pub topic_drift : F
  pub pacing : Text
  pub micro_switches : List Text
  pub recency_seconds : F
  pub interaction_count : ℤ
  pub tone_compensation : ToneCompensation F
  pub updated_at : Time
  pub decay_lambda_per_hour : F
