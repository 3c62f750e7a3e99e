-- ===== src/Sessions.antt =====
-- internal/state/manager.go: the state of the sessions. A method takes the time that it reads, and is
-- one step under the mutex; the pointers to the sessions do not leave the manager.
pub mod Detect
pub mod Topics
pub mod Turns
pub mod Ranges
pub mod Readings
pub mod Invariant
mod Tests
use g_lm.Prelude.{
  ℕ, zero, suc, ◌-◌, ◌/◌, ◌%◌, ◌+◌, Bool, true, false, ◌&&◌, ◌||◌, Option, none, some, List, [],
  ◌∷◌, ◌++◌, length, ltb, ◌==◌, if◌then◌else◌,
}
use g_lm.Prelude.Int.{ℤ, pos, negsuc}
use g_lm.Prelude.Texts.{Text, lit, text_eq, is_empty, trim_space, fields}
use g_lm.Prelude.Maps.{Map, lookup, insert}
use g_lm.Prelude.Floats.{Float64, clamp01}
use g_lm.Model.Records.{Time}
use g_lm.Model.Chat.{ChatCompletionRequest, Message}
use g_lm.Model.Session.{ToneCompensation, CognitiveState}
use Detect.{
  join_user_messages, detect_task_mode, detect_sentiment_score, detect_arousal, sentiment_label,
  clamp,
}
use Topics.{
  TopicSignal, hours, decay_topics, update_topics, top_topics, topic_of, topic_drift_score,
}
use Turns.{Session, new_session, seconds, user_turn, assistant_turn}

pub record Manager (F : Type 0) : Type 0 where
  pub window : ℕ
  pub sessions : Map (Session F)

unfoldable pub new_manager : {F : Type 0} → ℤ → Manager F
new_manager (pos zero) = record { window = 20; sessions = [] }
new_manager (pos (suc n)) = record { window = suc n; sessions = [] }
new_manager (negsuc n) = record { window = 20; sessions = [] }

unfoldable pub resolve_session_id : Text → Text → Text → Text
unfolding trim_space
resolve_session_id requested header fallback =
    if is_empty (trim_space requested)
    then if is_empty (trim_space header) then trim_space fallback else trim_space header
    else trim_space requested

unfoldable pub session_key : Text → Text
unfolding trim_space
session_key id = if is_empty (trim_space id) then lit "default" else trim_space id

module _ (fl : Float64) where
  open fl use {F, lt, le, milli, of_int, add, sub, mul, div, neg, exp, abs, max, min, round}

  unfoldable pub round_milli : F → F
  round_milli v = div (round (mul v (of_int 1000))) (of_int 1000)

  -- The session that getOrCreateLocked returns; it is stored under its key.
  unfoldable pub get_or_create : Text → Time → Manager F → Session F
  unfolding session_key lookup new_session
  get_or_create id now m = elim (lookup (session_key id) m.sessions) [
    | none ↦ new_session fl (session_key id) now
    | some s ↦ s
  ]

  unfoldable pub derive_tone_compensation : Session F → ToneCompensation F
  unfolding clamp01 round_milli
  derive_tone_compensation s =
      let warmth = clamp01 fl (add (milli 500) (mul s.sentiment_carryover (milli 350))) in
      let directness =
        clamp01 fl
          (sub (add (milli 550) (mul s.arousal (milli 250))) (mul (abs s.mood) (milli 80))) in
      let empathy =
        clamp01 fl
          (add (milli 450) (mul (max (milli 0) (neg s.sentiment_carryover)) (milli 450))) in
      let stability =
        clamp01 fl (sub (milli 1000) (min (milli 1000) (mul (abs s.mood_slope) (milli 3000)))) in
      let intensity = clamp01 fl (add (mul s.arousal (milli 600)) (mul (abs s.mood) (milli 400))) in
      record {
        target_tone =
            if le (milli 650) empathy
            then lit "supportive-calm"
            else if le (milli 700) directness && le (milli 500) stability
            then lit "concise-direct"
            else if le (milli 650) warmth
            then lit "warm-collaborative"
            else lit "neutral-professional";
        warmth = round_milli warmth;
        directness = round_milli directness;
        empathy = round_milli empathy;
        stability = round_milli stability;
        intensity = round_milli intensity;
      }

  unfoldable pub detect_micro_switches : Session F → List Text
  unfolding text_eq
  detect_micro_switches s =
      (if le (milli 120) s.mood_shift then lit "mood_shift" ∷ [] else [])
      ++ ((if le (milli 450) s.topic_drift then lit "topic_drift" ∷ [] else [])
          ++ (if text_eq s.pacing (lit "fast") || text_eq s.pacing (lit "slow")
              then lit "pacing_shift" ∷ []
              else []))

  unfoldable pub snapshot_of : Time → Session F → CognitiveState F
  unfolding top_topics topic_of sentiment_label round_milli seconds detect_micro_switches
      derive_tone_compensation
  snapshot_of now s =
      let kws = top_topics fl s.topic_signals in
      let recency =
        if s.last_interaction == 0 then milli 0 else seconds fl (now - s.last_interaction) in
      record {
        session_id = s.id;
        task_mode = s.task_mode;
        topic = topic_of kws;
        topic_keywords = kws;
        sentiment = sentiment_label fl s.sentiment_carryover;
        sentiment_instant = round_milli s.sentiment_instant;
        sentiment_carryover = round_milli s.sentiment_carryover;
        valence = round_milli s.valence;
        arousal = round_milli s.arousal;
        mood = round_milli s.mood;
        mood_slope = round_milli s.mood_slope;
        emotional_energy = round_milli s.emotional_energy;
        mood_shift = round_milli s.mood_shift;
        topic_drift = round_milli s.topic_drift;
        pacing = s.pacing;
        micro_switches = detect_micro_switches s;
        recency_seconds = round_milli recency;
        interaction_count = pos s.interaction_count;
        tone_compensation = derive_tone_compensation s;
        updated_at = s.last_interaction;
        decay_lambda_per_hour = milli 450;
      }

  abbrev pub store_session : Text → Session F → Manager F → Manager F
  unfolding session_key
  store_session id s m = record m { sessions = insert (session_key id) s m.sessions }

  unfoldable pub record_user_input :
      Text → ChatCompletionRequest F → Time → Manager F → Manager F × CognitiveState F
  unfolding get_or_create user_turn snapshot_of join_user_messages insert
  record_user_input id req now m =
      let s = user_turn fl (join_user_messages req.messages) now (get_or_create id now m) in
      (store_session id s m, snapshot_of now s)

  unfoldable pub record_assistant_output :
      Text → Text → Time → Manager F → Manager F × CognitiveState F
  unfolding get_or_create assistant_turn snapshot_of insert
  record_assistant_output id content now m =
      let s = assistant_turn fl content now (get_or_create id now m) in
      (store_session id s m, snapshot_of now s)

  unfoldable pub snapshot : Text → Time → Manager F → Option (CognitiveState F)
  unfolding lookup snapshot_of trim_space
  snapshot id now m = elim (lookup (trim_space id) m.sessions) [
    | none ↦ none
    | some s ↦ some (snapshot_of now s)
  ]

  unfoldable pub tone_metadata : Text → Time → Manager F → Option (ToneCompensation F)
  unfolding snapshot
  tone_metadata id now m = elim (snapshot id now m) [
    | none ↦ none
    | some st ↦ some st.tone_compensation
  ]
