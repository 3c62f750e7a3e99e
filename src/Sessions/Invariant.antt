-- ===== src/Sessions/Invariant.antt =====
-- internal/state/manager.go: every turn keeps the figures of every session in their ranges.
use g_lm.Prelude.{
  subst, ℕ, ◌-◌, ◌≡◌, ◌≤◌, inl, inr, some, ltb, ◌==◌, arith, Bool-cases, Option-cases,
  if◌then◌else◌,
}
use g_lm.Prelude.Texts.{Text, text_eq}
use g_lm.Prelude.Maps.{lookup, insert, lookup-insert}
use g_lm.Prelude.Floats.{Float64, IsOrdered, InUnit, clamp01-InUnit}
use g_lm.Model.Records.{Time}
use g_lm.Model.Chat.{ChatCompletionRequest}
use g_lm.Sessions.Detect.{detect_task_mode, join_user_messages}
use g_lm.Sessions.Turns.{
  Session, new_session, ema, decayed, apply_decay, record_sentiment, record_arousal, target_mood,
  record_mood, record_topics, user_turn, assistant_turn,
}
use g_lm.Sessions.{Manager, session_key, get_or_create, record_user_input, record_assistant_output}
use g_lm.Sessions.Ranges.{
  InBand, IsBounded, InRange, number_of_band, number_of_unit, band_of_unit, milli-InUnit,
  milli-InBand, clamp-InBand,
}
use g_lm.Sessions.Readings.{detect_sentiment_score-InBand, detect_arousal-InUnit}

module _ (fl : Float64) (o : IsOrdered fl) (b : IsBounded fl o) where
  open fl use {F, lt, le, milli, of_int, add, sub, mul, div, neg, exp, abs, eq}

  decayed-InRange :
      (decay : F) (now : Time) (s : Session F)
      → InUnit fl decay
      → InRange fl s
      → InRange fl (decayed fl decay now s)
  unfolding decayed
  decayed-InRange decay now s d r =
      let e = band_of_unit fl o b decay d in
      let number = λ (v : F) (h : InBand fl v). number_of_band fl o b _ (b.mul_band v decay h e) in
      record {
        instant = r.instant;
        carryover = clamp-InBand fl o b _ (number s.sentiment_carryover r.carryover);
        valence = clamp-InBand fl o b _ (number s.valence r.valence);
        arousal = clamp01-InUnit fl o _ (number s.arousal (band_of_unit fl o b _ r.arousal));
        mood = clamp-InBand fl o b _ (number s.mood r.mood);
        energy = clamp01-InUnit fl o _ (number s.emotional_energy (band_of_unit fl o b _ r.energy));
      }

  same_figures :
      (s : Session F) (mode : Text) (count : ℕ) (last : Time)
      → InRange fl s
      → InRange fl
          (record s { task_mode = mode; interaction_count = count; last_interaction = last })
  same_figures s mode count last r = record {
    instant = r.instant;
    carryover = r.carryover;
    valence = r.valence;
    arousal = r.arousal;
    mood = r.mood;
    energy = r.energy;
  }

  apply_decay-InRange :
      (now : Time) (s : Session F) → InRange fl s → InRange fl (apply_decay fl now s)
  unfolding apply_decay
  apply_decay-InRange now s r = elim (Bool-cases (s.last_interaction == 0)) [
    | inl e ↦ rw (e, apply_decay) (same_figures s s.task_mode s.interaction_count now r)
    | inr e ↦ elim (Bool-cases (ltb s.last_interaction now)) [
      | inl f ↦
          rw (e, f, apply_decay)
            (decayed-InRange _ now s (b.decay_unit (now - s.last_interaction)) r)
      | inr f ↦ rw (e, f, apply_decay) r
    ]
  ]

  ema-InBand :
      (a : ℕ) (p v : F) → a ≤ 1000 → InBand fl p → InBand fl v → InBand fl (ema fl p v (milli a))
  unfolding ema
  ema-InBand a p v h hp hv = ground (arith, b.mean_band a p v h hp hv)

  ema-InUnit :
      (a : ℕ) (p v : F) → a ≤ 1000 → InUnit fl p → InUnit fl v → InUnit fl (ema fl p v (milli a))
  unfolding ema
  ema-InUnit a p v h hp hv = ground (arith, b.mean_unit a p v h hp hv)

  record_sentiment-InRange :
      (v : F) (s : Session F) → InBand fl v → InRange fl s → InRange fl (record_sentiment fl v s)
  unfolding record_sentiment
  record_sentiment-InRange v s h r = record {
    instant = h;
    carryover = ground (arith, ema-InBand 220 s.sentiment_carryover v (omega arith) r.carryover h);
    valence = r.valence;
    arousal = r.arousal;
    mood = r.mood;
    energy = r.energy;
  }

  record_arousal-InRange :
      (v : F) (s : Session F) → InUnit fl v → InRange fl s → InRange fl (record_arousal fl v s)
  unfolding record_arousal
  record_arousal-InRange v s h r = record {
    instant = r.instant;
    carryover = r.carryover;
    valence =
        let m =
          ema-InBand 220 s.valence s.sentiment_carryover (omega arith) r.valence r.carryover in
        let c = r.carryover in ground arith;
    arousal = let m = ema-InUnit 200 s.arousal v (omega arith) r.arousal h in ground arith;
    mood = r.mood;
    energy = r.energy;
  }

  target_mood-InBand : (s : Session F) → InRange fl s → InBand fl (target_mood fl s)
  unfolding target_mood
  target_mood-InBand s r = clamp-InBand fl o b _ (
      b.add_band _ _
        (b.mul_band (milli 720) s.sentiment_carryover (milli-InBand fl o b 720 (omega arith))
          r.carryover)
        (b.mul_band (milli 280) _ (milli-InBand fl o b 280 (omega arith))
          (b.centre s.arousal r.arousal)))

  mood_mean :
      (s : Session F) (t : F)
      → InRange fl s
      → InBand fl t
      → let alpha = if lt s.mood t then milli 160 else milli 80 in
        InBand fl (add (mul (sub (milli 1000) alpha) s.mood) (mul alpha t))
  mood_mean s t r h = elim (Bool-cases (lt s.mood t)) [
    | inl e ↦ rw e (b.mean_band 160 s.mood t (omega arith) r.mood h)
    | inr e ↦ rw e (b.mean_band 80 s.mood t (omega arith) r.mood h)
  ]

  record_mood-InRange :
      (prev : F) (s : Session F) → InRange fl s → InRange fl (record_mood fl prev s)
  unfolding record_mood
  record_mood-InRange prev s r =
      let t = target_mood-InBand s r in
      let mean = number_of_band fl o b _ (mood_mean s (target_mood fl s) r t) in
      let m = clamp-InBand fl o b _ mean in
      record {
        instant = r.instant;
        carryover = r.carryover;
        valence = r.valence;
        arousal = r.arousal;
        mood = m;
        energy = clamp01-InUnit fl o _ (
            b.add_band _ _
              (b.mul_band _ (milli 550) (band_of_unit fl o b _ (b.abs_band _ m))
                (milli-InBand fl o b 550 (omega arith)))
              (b.mul_band s.arousal (milli 450) (band_of_unit fl o b _ r.arousal)
                (milli-InBand fl o b 450 (omega arith))));
      }

  user_turn-InRange :
      (text : Text) (now : Time) (s : Session F)
      → InRange fl s
      → InRange fl (user_turn fl text now s)
  unfolding user_turn record_topics
  user_turn-InRange text now s r =
      let s0 = apply_decay fl now s in
      let r0 = apply_decay-InRange now s r in
      let r1 =
        same_figures s0 (detect_task_mode text) s0.interaction_count s0.last_interaction r0 in
      let r2 = record_sentiment-InRange _ _ (detect_sentiment_score-InBand fl o b text) r1 in
      let r3 = record_arousal-InRange _ _ (detect_arousal-InUnit fl o b text) r2 in
      let r4 = record_mood-InRange (apply_decay fl now s).mood _ r3 in
      record {
        instant = r4.instant;
        carryover = r4.carryover;
        valence = r4.valence;
        arousal = r4.arousal;
        mood = r4.mood;
        energy = r4.energy;
      }

  assistant_turn-InRange :
      (content : Text) (now : Time) (s : Session F)
      → InRange fl s
      → InRange fl (assistant_turn fl content now s)
  unfolding assistant_turn
  assistant_turn-InRange content now s r =
      let r0 = apply_decay-InRange now s r in
      let e =
        ema-InUnit 80 (apply_decay fl now s).emotional_energy (milli 450) (omega arith) r0.energy
          (milli-InUnit fl o b 450 (omega arith)) in
      let e' = clamp01-InUnit fl o _ (number_of_unit fl o b _ e) in
      let old = r0.energy in
      record {
        instant = r0.instant;
        carryover = r0.carryover;
        valence = r0.valence;
        arousal = r0.arousal;
        mood = r0.mood;
        energy = ground arith;
      }

  new_session-InRange : (id : Text) (now : Time) → InRange fl (new_session fl id now)
  unfolding new_session
  new_session-InRange id now =
      let u = milli-InUnit fl o b 0 (omega arith) in
      let z = milli-InBand fl o b 0 (omega arith) in
      record { instant = z; carryover = z; valence = z; arousal = u; mood = z; energy = u }

  -- Every stored session is in its ranges.
  abbrev pub AllInRange : Manager F → Type 0
  AllInRange m = (id : Text) (s : Session F) → lookup id m.sessions ≡ some s → InRange fl s

  get_or_create-InRange :
      (id : Text) (now : Time) (m : Manager F)
      → AllInRange m
      → InRange fl (get_or_create fl id now m)
  unfolding get_or_create
  get_or_create-InRange id now m h = elim (Option-cases (lookup (session_key id) m.sessions)) [
    | inl e ↦ rw (e, get_or_create) (new_session-InRange (session_key id) now)
    | inr (s, e) ↦ rw (e, get_or_create) (h (session_key id) s e)
  ]

  stored-InRange :
      (k : Text) (s : Session F) (m : Manager F)
      → AllInRange m
      → InRange fl s
      → AllInRange (record m { sessions = insert k s m.sessions })
  stored-InRange k s m h r j t e = elim (Bool-cases (text_eq k j)) [
    | inl p ↦
        let same : s ≡ t = cc (e, lookup-insert k j s m.sessions, p) in
        subst (λ x. InRange fl x) same r
    | inr p ↦ h j t (ground (arith, lookup-insert k j s m.sessions))
  ]

  -- A turn of the user and one of the assistant keep, for every session of the manager, sentiment,
  -- valence and mood between -1 and 1, and arousal and energy between 0 and 1.
  pub record_turn-InRange :
      (id text : Text) (req : ChatCompletionRequest F) (now : Time) (m : Manager F)
      → AllInRange m
      → AllInRange (record_user_input fl id req now m).0
        × AllInRange (record_assistant_output fl id text now m).0
  unfolding record_user_input record_assistant_output
  record_turn-InRange id text req now m h =
      let r = get_or_create-InRange id now m h in
      (
        stored-InRange (session_key id) _ m h
            (user_turn-InRange (join_user_messages req.messages) now (get_or_create fl id now m) r),
        stored-InRange (session_key id) _ m h
            (assistant_turn-InRange text now (get_or_create fl id now m) r),
      )
