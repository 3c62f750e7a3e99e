-- ===== src/Sessions/Turns.antt =====
-- internal/state/manager.go: what a turn of the user or of the assistant does to a session.
use g_lm.Prelude.{ℕ, suc, ◌-◌, ◌/◌, ◌%◌, ◌||◌, List, [], length, ltb, ◌==◌, if◌then◌else◌}
use g_lm.Prelude.Texts.{Text, lit, is_empty, trim_space, fields}
use g_lm.Prelude.Maps.{Map}
use g_lm.Prelude.Floats.{Float64, clamp01}
use g_lm.Model.Records.{Time}
use g_lm.Sessions.Detect.{detect_task_mode, detect_sentiment_score, detect_arousal, clamp}
use g_lm.Sessions.Topics.{
  TopicSignal, hours, decay_topics, update_topics, top_topics, topic_drift_score,
}

pub record Session (F : Type 0) : Type 0 where
  pub id : Text
  pub task_mode : Text
  pub last_interaction : Time
  pub interaction_count : ℕ
  pub sentiment_instant : F
  pub sentiment_carryover : F
  pub valence : F
  pub arousal : F
  pub mood : F
  pub mood_slope : F
  pub emotional_energy : F
  pub mood_shift : F
  pub topic_drift : F
  pub pacing : Text
  pub prev_topic_keywords : List Text
  pub topic_signals : Map (TopicSignal F)

module _ (fl : Float64) where
  open fl use {F, lt, le, milli, of_int, add, sub, mul, div, neg, exp, abs, max, min, round}

  unfoldable pub ema : F → F → F → F
  ema prev value alpha =
      if le alpha (milli 0)
      then value
      else if le (milli 1000) alpha
      then value
      else add (mul (sub (milli 1000) alpha) prev) (mul alpha value)

  unfoldable pub new_session : Text → Time → Session F
  new_session id now = record {
    id = id;
    task_mode = lit "general";
    last_interaction = now;
    interaction_count = 0;
    sentiment_instant = milli 0;
    sentiment_carryover = milli 0;
    valence = milli 0;
    arousal = milli 0;
    mood = milli 0;
    mood_slope = milli 0;
    emotional_energy = milli 0;
    mood_shift = milli 0;
    topic_drift = milli 0;
    pacing = [];
    prev_topic_keywords = [];
    topic_signals = [];
  }

  unfoldable pub decayed : F → Time → Session F → Session F
  unfolding clamp clamp01 decay_topics
  decayed decay now s = record s {
    sentiment_carryover = clamp fl (mul s.sentiment_carryover decay);
    valence = clamp fl (mul s.valence decay);
    arousal = clamp01 fl (mul s.arousal decay);
    mood = clamp fl (mul s.mood decay);
    mood_slope = mul s.mood_slope decay;
    emotional_energy = clamp01 fl (mul s.emotional_energy decay);
    topic_signals = decay_topics fl now s.topic_signals;
  }

  unfoldable pub apply_decay : Time → Session F → Session F
  unfolding decayed hours
  apply_decay now s =
      let decay = exp (mul (neg (milli 450)) (hours fl (now - s.last_interaction))) in
      if s.last_interaction == 0
      then record s { last_interaction = now }
      else if ltb s.last_interaction now
      then decayed decay now s
      else s

  -- time.Duration.Seconds
  unfoldable pub seconds : ℕ → F
  seconds d = add (of_int (d / 1000000000)) (div (of_int (d % 1000000000)) (of_int 1000000000))

  unfoldable pub detect_pacing : ℕ → Text → Text
  unfolding seconds fields trim_space
  detect_pacing delta text =
      if ltb 120 (length (fields (trim_space text))) || lt (seconds delta) (of_int 20)
      then lit "fast"
      else if lt (of_int 240) (seconds delta)
      then lit "slow"
      else lit "steady"

  unfoldable pub record_sentiment : F → Session F → Session F
  unfolding ema
  record_sentiment instant s = record s {
    sentiment_instant = instant;
    sentiment_carryover =
        if s.interaction_count == 0 then instant else ema s.sentiment_carryover instant (milli 220);
  }

  unfoldable pub record_arousal : F → Session F → Session F
  unfolding ema
  record_arousal instant s = record s {
    arousal = if s.interaction_count == 0 then instant else ema s.arousal instant (milli 200);
    valence =
        if s.interaction_count == 0
        then s.sentiment_carryover
        else ema s.valence s.sentiment_carryover (milli 220);
  }

  unfoldable pub target_mood : Session F → F
  unfolding clamp
  target_mood s = clamp fl (
      add (mul (milli 720) s.sentiment_carryover)
        (mul (milli 280) (sub (mul s.arousal (milli 2000)) (milli 1000))))

  unfoldable pub record_mood : F → Session F → Session F
  unfolding clamp clamp01 target_mood
  record_mood prev s =
      let target = target_mood s in
      let alpha = if lt s.mood target then milli 160 else milli 80 in
      let mood = clamp fl (add (mul (sub (milli 1000) alpha) s.mood) (mul alpha target)) in
      record s {
        mood = mood;
        mood_slope = sub mood prev;
        emotional_energy =
            clamp01 fl (add (mul (abs mood) (milli 550)) (mul s.arousal (milli 450)));
      }

  unfoldable pub record_topics : Text → Time → Session F → Session F
  unfolding update_topics top_topics topic_drift_score
  record_topics text now s =
      let signals = update_topics fl text now s.topic_signals in
      let topics = top_topics fl signals in
      record s {
        topic_signals = signals;
        topic_drift = topic_drift_score fl s.prev_topic_keywords topics;
        prev_topic_keywords = topics;
      }

  -- A turn of the user, on the session before it.
  unfoldable pub user_turn : Text → Time → Session F → Session F
  unfolding apply_decay detect_task_mode detect_sentiment_score detect_arousal record_sentiment
      record_arousal record_mood record_topics detect_pacing
  user_turn text now s =
      let delta = now - s.last_interaction in
      let s0 = apply_decay now s in
      let s1 : Session F = record s0 { task_mode = detect_task_mode text } in
      let s2 = record_sentiment (detect_sentiment_score fl text) s1 in
      let s3 = record_arousal (detect_arousal fl text) s2 in
      let s4 = record_mood s0.mood s3 in
      let s5 = record_topics text now s4 in
      record s5 {
        mood_shift = abs (sub s5.mood s0.mood);
        pacing = detect_pacing delta text;
        interaction_count = suc s5.interaction_count;
        last_interaction = now;
      }

  unfoldable pub assistant_turn : Text → Time → Session F → Session F
  unfolding apply_decay ema clamp01 trim_space
  assistant_turn content now s =
      let s0 = apply_decay now s in
      record s0 {
        emotional_energy =
            if is_empty (trim_space content)
            then s0.emotional_energy
            else clamp01 fl (ema s0.emotional_energy (milli 450) (milli 80));
        last_interaction = now;
      }
